-- ===== src/Tags/Refinement.antt =====
-- src/ai_api/services/member_tags.py against what it promises: for each member and tag, whether the member has it.
use ai_api.Base.{
  ℕ, ◌≡◌, inl, inr, refl, ap, ◌∙◌, Bool, not, Option, none, some, List, [], ◌∷◌, filter, ◌==◌, ◌&&◌,
  ◌||◌, get, Try, ok, raise, text_eq, arith, Option-cases,
}
use mathlib.Core.Path.{fun_ext}
use ai_api.Models.{Text, Member}
use ai_api.Allocations.{member_key}
use ai_api.Access.ModelAccess.{TagSource, member_of}
use ai_api.Tags.{
  TagError, Added, lookup_error, TagDb, validate_tag, removed_from, remove, add, add_rows, contains,
  bulk_apply, delete_tag_globally,
}
use ai_api.Tags.Table.{has_tag, has_tag-remove, has_tag-delete}
use ai_api.Tags.Statements.{
  all_valid, has_tag-add, known, has_tag-bulk_apply, known-get, unknown-get,
}

-- the calls that change tags
pub data TagCall : Type 0 where
  add_call : ℕ → List Text → TagSource → Option ℕ → TagCall
  remove_call : ℕ → List Text → TagCall
  bulk_call : Text → List ℕ → TagCall
  delete_call : Text → TagCall

pub run : TagCall → TagDb → TagDb
run (add_call member tags source rule) db = (add member tags source rule db).1
run (remove_call member tags) db = (remove member tags db).1
run (bulk_call tag ids) db = (bulk_apply tag ids db).1
run (delete_call tag) db = (delete_tag_globally tag db).1

pub run_all : List TagCall → TagDb → TagDb
run_all [] db = db
run_all (c ∷ calls) db = run_all calls (run c db)

-- whether a member has a tag
abbrev pub Relation : Type 0
Relation = ℕ → Text → Bool

-- What a call promises, for the members that are known. A call that is refused changes nothing.
abbrev pub promised : (ℕ → Bool) → TagCall → Relation → Relation
promised is_known (add_call member tags source rule) has m t =
    has m t || (is_known member && (all_valid tags && (m == member && member_of tags t)))
promised is_known (remove_call member tags) has m t =
    has m t && not (is_known member && (m == member && member_of tags t))
promised is_known (bulk_call tag ids) has m t =
    has m t || (validate_tag tag && (is_known m && (contains ids m && text_eq tag t)))
promised is_known (delete_call tag) has m t = has m t && not (text_eq t tag)

abbrev pub promised_all : (ℕ → Bool) → List TagCall → Relation → Relation
promised_all is_known [] has = has
promised_all is_known (c ∷ calls) has = promised_all is_known calls (promised is_known c has)

members-add_rows :
    (member : ℕ) (source : TagSource) (db : TagDb) (r : Try TagError Added)
    → (add_rows member source db r).1.members ≡ db.members
unfolding add_rows
members-add_rows member source db (ok a) = refl
members-add_rows member source db (raise e) = refl

members-add :
    (member : ℕ) (tags : List Text) (source : TagSource) (rule : Option ℕ) (db : TagDb)
    → (add member tags source rule db).1.members ≡ db.members
unfolding add
members-add member tags source rule db = elim (Option-cases (get member_key member db.members)) [
  | inl missing ↦ rw (missing, add) refl
  | inr (x, found) ↦ rw (found, add) (members-add_rows member source db _)
]

add_unknown :
    (member : ℕ) (tags : List Text) (source : TagSource) (rule : Option ℕ) (db : TagDb)
    → get member_key member db.members ≡ none
    → add member tags source rule db ≡ (raise lookup_error, db)
unfolding add
add_unknown member tags source rule db missing = rw (missing, add) refl

remove_known :
    (member : ℕ) (tags : List Text) (db : TagDb) (x : Member)
    → get member_key member db.members ≡ some x
    → (remove member tags db).1.member_tags
      ≡ filter (λ r. not (removed_from member tags r)) db.member_tags
unfolding remove
remove_known member tags db x found = rw (found, remove) refl

members-run : (c : TagCall) (db : TagDb) → (run c db).members ≡ db.members
unfolding run remove bulk_apply delete_tag_globally
members-run (add_call member tags source rule) db = members-add member tags source rule db
members-run (remove_call member tags) db = ground arith
members-run (bulk_call tag ids) db = ground arith
members-run (delete_call tag) db = refl

has_tag-run :
    (c : TagCall) (db : TagDb) (m : ℕ) (t : Text)
    → has_tag (run c db).member_tags m t
      ≡ promised (known db.members) c (has_tag db.member_tags) m t
unfolding run remove delete_tag_globally
has_tag-run (add_call member tags source rule) db m t =
    elim (Option-cases (get member_key member db.members)) [
      | inl missing ↦
          ap (λ r. has_tag r.1.member_tags m t) (add_unknown member tags source rule db missing)
          ∙ ground (arith, unknown-get db.members member missing)
      | inr (x, found) ↦
          has_tag-add member tags source rule db x found m t
          ∙ ground (arith, known-get db.members member x found)
    ]
has_tag-run (remove_call member tags) db m t =
    elim (Option-cases (get member_key member db.members)) [
      | inl missing ↦ ground (arith, missing, unknown-get db.members member missing)
      | inr (x, found) ↦
          ap (λ rows. has_tag rows m t) (remove_known member tags db x found)
          ∙ has_tag-remove member tags db.member_tags m t
          ∙ ground (arith, known-get db.members member x found)
    ]
has_tag-run (bulk_call tag ids) db m t = has_tag-bulk_apply tag ids db m t
has_tag-run (delete_call tag) db m t = has_tag-delete tag db.member_tags m t

-- The service implements its promise: after any sequence of calls, accepted or refused, that add tags to a
-- member, remove them, apply one to many members or delete one everywhere, the table has a tag of a member
-- exactly when the calls, as operations on the relation of members and tags, say so.
pub has_tag-run_all :
    (calls : List TagCall) (db : TagDb) (m : ℕ) (t : Text)
    → has_tag (run_all calls db).member_tags m t
      ≡ promised_all (known db.members) calls (has_tag db.member_tags) m t
unfolding run_all
has_tag-run_all [] db m t = refl
has_tag-run_all (c ∷ calls) db m t =
    has_tag-run_all calls (run c db) m t
    ∙ ap (λ ms. promised_all (known ms) calls (has_tag (run c db).member_tags) m t)
        (members-run c db)
    ∙ ap (λ has. promised_all (known db.members) calls has m t)
        (fun_ext (λ k. fun_ext (λ u. has_tag-run c db k u)))
