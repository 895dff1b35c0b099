-- ===== src/Tags.antt =====
-- src/ai_api/services/member_tags.py: the tags of members. A call that raises leaves the tables to its
-- caller, who rolls back.
pub mod Table
pub mod Statements
pub mod Refinement
mod Tests
use ai_api.Base.{
  is_empty, ℕ, zero, suc, Bool, true, false, not, Option, none, some, List, [], ◌∷◌, ◌++◌, map,
  filter, any, if◌then◌else◌, leb, ltb, ◌==◌, ◌&&◌, ◌||◌, get, Try, ok, raise, text_eq, length,
}
use ai_api.Models.{Text, Member, ActorType, AuditEntry}
use ai_api.Models.Events.{AuditEventType}
use ai_api.Allocations.{member_key}
use ai_api.Access.ModelAccess.{MemberTag, TagSource, member_of}

abbrev pub is_lower : ℕ → Bool
is_lower c = leb b'a' c && leb c b'z'

-- [a-z0-9_-]
abbrev pub is_tag_char : ℕ → Bool
is_tag_char c = is_lower c || (leb b'0' c && leb c b'9') || c == b'_' || c == b'-'

-- what `$` matches: the end, or a line feed before it
unfoldable pub at_end : Text → Bool
at_end [] = true
at_end (c ∷ []) = c == 10
at_end _ = false

-- `[a-z0-9_-]{0,n}$`
unfoldable pub match_rest : ℕ → Text → Bool
unfolding at_end
match_rest zero s = at_end s
match_rest (suc n) [] = true
match_rest (suc n) (c ∷ s) = (is_tag_char c && match_rest n s) || at_end (c ∷ s)

-- `validate_tag` accepts, by `_TAG_RE.match`
unfoldable pub validate_tag : Text → Bool
unfolding match_rest
validate_tag [] = false
validate_tag (c ∷ s) = is_lower c && match_rest 63 s

pub data TagError : Type 0 where
  lookup_error value_error : TagError

pub record TagDb : Type 0 where
  pub members : List Member
  pub member_tags : List MemberTag
  pub audit_log : List AuditEntry

-- `sorted`, by the order of characters
unfoldable pub text_leb : Text → Text → Bool
text_leb [] _ = true
text_leb (c ∷ s) [] = false
text_leb (c ∷ s) (d ∷ t) = ltb c d || (c == d && text_leb s t)

unfoldable pub insert_text : Text → List Text → List Text
unfolding text_leb
insert_text t [] = t ∷ []
insert_text t (u ∷ us) = if text_leb t u then t ∷ u ∷ us else u ∷ insert_text t us

unfoldable pub sorted : List Text → List Text
unfolding insert_text
sorted [] = []
sorted (t ∷ ts) = insert_text t (sorted ts)

abbrev pub tags_of : ℕ → List MemberTag → List Text
tags_of member rows = map (λ r. r.tag) (filter (λ r. r.member_id == member) rows)

-- `list_for_member`
unfoldable pub list_for_member : ℕ → TagDb → List Text
unfolding sorted
list_for_member member db = sorted (tags_of member db.member_tags)

-- the rows that the loop of `add` has added, and the tags that the member then has
pub record Added : Type 0 where
  pub existing : List Text
  pub rows : List MemberTag

-- one turn of the loop, for a tag that is valid
unfoldable pub add_one : ℕ → TagSource → Option ℕ → Text → Added → Added
unfolding text_eq
add_one member source rule tag a = if member_of a.existing tag then a else record {
  existing = a.existing ++ tag ∷ [];
  rows = a.rows ++ record { member_id = member; tag = tag; source = source; rule_id = rule } ∷ [];
}

-- the loop
unfoldable pub add_loop : ℕ → TagSource → Option ℕ → List Text → Added → Try TagError Added
unfolding validate_tag add_one
add_loop member source rule [] a = ok a
add_loop member source rule (tag ∷ tags) a =
    let rest = add_loop member source rule tags (add_one member source rule tag a) in
    if validate_tag tag then rest else raise value_error

abbrev pub tag_audit : AuditEventType → ActorType → Option ℕ → AuditEntry
tag_audit event actor target = record { event_type = event; actor_type = actor; target_id = target }

abbrev pub actor_of : TagSource → ActorType
actor_of TagSource.manual = ActorType.admin
actor_of TagSource.auto = ActorType.system

abbrev pub log : Bool → AuditEntry → List AuditEntry → List AuditEntry
log changed entry entries = if changed then entries ++ entry ∷ [] else entries

-- the end of `add`
unfoldable pub add_rows :
    ℕ → TagSource → TagDb → Try TagError Added → Try TagError (List Text) × TagDb
unfolding sorted
add_rows member source db (raise e) = (raise e, db)
add_rows member source db (ok a) = (
  ok (sorted a.existing),
  record db {
    member_tags = db.member_tags ++ a.rows;
    audit_log =
        log (not (is_empty a.rows))
          (tag_audit AuditEventType.member_tag_added (actor_of source) (some member)) db.audit_log;
  },
)

-- `add`
unfoldable pub add : ℕ → List Text → TagSource → Option ℕ → TagDb → Try TagError (List Text) × TagDb
unfolding list_for_member add_loop add_rows
add member tags source rule db = elim (get member_key member db.members) [
  | none ↦ (raise lookup_error, db)
  | some _ ↦ add_rows member source db (
      add_loop member source rule tags (record { existing = list_for_member member db; rows = [] }))
]

-- the rows that a DELETE takes
abbrev pub removed_from : ℕ → List Text → MemberTag → Bool
removed_from member tags r = r.member_id == member && member_of tags r.tag

-- `remove`, with what it raises
unfoldable pub remove : ℕ → List Text → TagDb → Option TagError × TagDb
unfolding text_eq
remove member tags db = elim (get member_key member db.members) [
  | none ↦ (some lookup_error, db)
  | some _ ↦ (
    none,
    record db {
      member_tags = filter (λ r. not (removed_from member tags r)) db.member_tags;
      audit_log =
          log (any (removed_from member tags) db.member_tags)
            (tag_audit AuditEventType.member_tag_removed ActorType.admin (some member))
            db.audit_log;
    },
  )
]

abbrev pub contains : List ℕ → ℕ → Bool
contains ns n = any (λ k. k == n) ns

-- the members of a list who have a tag already
unfoldable pub already_tagged : Text → List ℕ → List MemberTag → List ℕ
unfolding text_eq
already_tagged tag ids rows =
    map (λ r. r.member_id) (filter (λ r. text_eq r.tag tag && contains ids r.member_id) rows)

-- the ids of the members who are to get it
unfoldable pub valid_ids : Text → List ℕ → TagDb → List ℕ
unfolding already_tagged
valid_ids tag ids db =
    let to_add = filter (λ m. not (contains (already_tagged tag ids db.member_tags) m)) ids in
    map member_key (filter (λ m. contains to_add m.id) db.members)

abbrev pub bulk_row : Text → ℕ → MemberTag
bulk_row tag member = record {
  member_id = member;
  tag = tag;
  source = TagSource.manual;
  rule_id = none;
}

abbrev pub some_of : List ℕ → Bool
some_of [] = false
some_of (_ ∷ _) = true

-- `bulk_apply`; the set of members who had the tag is a list without double entries, since a member
-- has a tag once
unfoldable pub bulk_apply : Text → List ℕ → TagDb → Try TagError (ℕ × ℕ) × TagDb
unfolding validate_tag valid_ids
bulk_apply tag ids db =
    if validate_tag tag
    then (
      ok (length (valid_ids tag ids db), length (already_tagged tag ids db.member_tags)),
      record db {
        member_tags = db.member_tags ++ map (bulk_row tag) (valid_ids tag ids db);
        audit_log =
            log (some_of (valid_ids tag ids db))
              (tag_audit AuditEventType.member_tag_bulk_added ActorType.admin none) db.audit_log;
      },
    )
    else (raise value_error, db)

-- `delete_tag_globally`
unfoldable pub delete_tag_globally : Text → TagDb → ℕ × TagDb
unfolding text_eq
delete_tag_globally tag db = (
  length (filter (λ r. text_eq r.tag tag) db.member_tags),
  record db {
    member_tags = filter (λ r. not (text_eq r.tag tag)) db.member_tags;
    audit_log =
        log (any (λ r. text_eq r.tag tag) db.member_tags)
          (tag_audit AuditEventType.member_tag_removed ActorType.admin none) db.audit_log;
  },
)

-- `TagSummary`
pub record TagSummary : Type 0 where
  pub tag : Text
  pub member_count : ℕ

-- one row of `GROUP BY tag`, ahead of the groups of the tags that follow in order
unfoldable pub count_tag : Text → List TagSummary → List TagSummary
unfolding text_eq
count_tag t [] = record { tag = t; member_count = 1 } ∷ []
count_tag t (g ∷ groups) =
    if text_eq g.tag t
    then record g { member_count = suc g.member_count } ∷ groups
    else record { tag = t; member_count = 1 } ∷ g ∷ groups

unfoldable pub count_tags : List Text → List TagSummary
unfolding count_tag
count_tags [] = []
count_tags (t ∷ ts) = count_tag t (count_tags ts)

-- `list_distinct`
unfoldable pub list_distinct : TagDb → List TagSummary
unfolding count_tags sorted
list_distinct db = count_tags (sorted (map (λ r. r.tag) db.member_tags))
