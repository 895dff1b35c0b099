-- ===== src/Tags/Statements.antt =====
-- What each operation on tags does to the table as a relation.
use ai_api.Base.{
  ℕ, ◌≡◌, ◌⊎◌, inl, inr, refl, ap, sym, ◌∙◌, Bool, true, false, not, Option, none, some, List, [],
  ◌∷◌, ◌++◌, map, filter, any-append, any-filter, ◌==◌, ==_iff, ◌&&◌, ◌||◌, get, Try, ok, raise,
  text_eq, text_eq_sound, arith, Bool-cases,
}
use mathlib.Core.List.{append-nil}
use ai_api.Models.{Text, Member}
use ai_api.Allocations.{member_key}
use ai_api.Access.ModelAccess.{MemberTag, TagSource, member_of}
use ai_api.Tags.{
  TagError, value_error, TagDb, validate_tag, tags_of, list_for_member, sorted, Added, add_one,
  add_loop, add_rows, add, contains, already_tagged, valid_ids, bulk_row, bulk_apply,
}
use ai_api.Tags.Table.{
  is_tag, has_tag, member_of-tags_of, member_of-sorted, Agrees, has_tag-add_one, Agrees-add_one,
}

-- all tags are valid
abbrev pub all_valid : List Text → Bool
all_valid [] = true
all_valid (tag ∷ tags) = validate_tag tag && all_valid tags

-- the loop refuses exactly the lists with a tag that is not valid
abbrev Loops : ℕ → List Text → List MemberTag → Added → Try TagError Added → Type 0
Loops member tags rows a r =
    ((all_valid tags ≡ false) × (r ≡ raise value_error))
    ⊎ ((all_valid tags ≡ true)
        × ((b : Added) × (r ≡ ok b)
            × ((m : ℕ) (t : Text)
                → has_tag (rows ++ b.rows) m t
                  ≡ (has_tag (rows ++ a.rows) m t || (m == member && member_of tags t)))))

add_loop-cases :
    (member : ℕ) (source : TagSource) (rule : Option ℕ) (tags : List Text) (rows : List MemberTag)
    (a : Added)
    → Agrees member rows a
    → Loops member tags rows a (add_loop member source rule tags a)
unfolding add_loop
add_loop-cases member source rule [] rows a agrees = inr (refl, (a, refl, λ m t. ground arith))
add_loop-cases member source rule (tag ∷ tags) rows a agrees =
    let next = add_one member source rule tag a in
    elim (Bool-cases (validate_tag tag)) [
      | inr bad ↦ inl (ground (arith, bad), ground (arith, bad))
      | inl good ↦
          elim (add_loop-cases member source rule tags rows next
            (Agrees-add_one member source rule tag rows a agrees)) [
              | inl (bad, refused) ↦ inl (ground (arith, bad), ground (arith, good, refused))
              | inr (valid, (b, done, has)) ↦ inr (
                ground (arith, good, valid),
                (
                  b,
                  ground (arith, good, done),
                  λ m t.
                      has m t
                      ∙ ap (λ x. x || (m == member && member_of tags t))
                          (has_tag-add_one member source rule tag rows a agrees m t)
                      ∙ ground arith,
                ),
              )
            ]
    ]

pub has_tag-add :
    (member : ℕ) (tags : List Text) (source : TagSource) (rule : Option ℕ) (db : TagDb) (x : Member)
    → get member_key member db.members ≡ some x
    → (m : ℕ) (t : Text)
    → has_tag (add member tags source rule db).1.member_tags m t
      ≡ (has_tag db.member_tags m t || (all_valid tags && (m == member && member_of tags t)))
unfolding add add_rows list_for_member
has_tag-add member tags source rule db x known m t =
    elim (add_loop-cases member source rule tags db.member_tags start agrees) [
      | inl (bad, refused) ↦ rw (known, add) (rw refused (ground (arith, bad)))
      | inr (valid, (b, done, has)) ↦
          rw (known, add) (rw done (has m t ∙ ground (arith, valid, append-nil db.member_tags)))
    ]
  where
    start : Added
    start = record { existing = sorted (tags_of member db.member_tags); rows = [] }

    agrees : Agrees member db.member_tags start
    agrees u =
        member_of-sorted (tags_of member db.member_tags) u
        ∙ member_of-tags_of member db.member_tags u
        ∙ ap (λ xs. has_tag xs member u) (sym (append-nil db.member_tags))

-- the ids of a list of members that are in another list
contains-valid :
    (ids : List ℕ) (members : List Member) (m : ℕ)
    → contains (map member_key (filter (λ x. contains ids x.id) members)) m
      ≡ (contains (map member_key members) m && contains ids m)
contains-valid ids [] m = refl
contains-valid ids (x ∷ members) m = elim (Bool-cases (x.id == m)) [
  | inl same ↦
      ground (arith, same, ap (contains ids) ((==_iff x.id m).0 same), contains-valid ids members m)
  | inr other ↦ ground (arith, other, contains-valid ids members m)
]

contains-already_tagged :
    (tag : Text) (ids : List ℕ) (rows : List MemberTag) (m : ℕ)
    → contains (already_tagged tag ids rows) m ≡ (has_tag rows m tag && contains ids m)
unfolding already_tagged
contains-already_tagged tag ids [] m = refl
contains-already_tagged tag ids (r ∷ rows) m = elim (Bool-cases (r.member_id == m)) [
  | inl same ↦ ground (
    arith,
    same,
    ap (contains ids) ((==_iff r.member_id m).0 same),
    contains-already_tagged tag ids rows m,
  )
  | inr other ↦ ground (arith, other, contains-already_tagged tag ids rows m)
]

has_tag-bulk_row :
    (tag : Text) (ids : List ℕ) (m : ℕ) (t : Text)
    → has_tag (map (bulk_row tag) ids) m t ≡ (contains ids m && text_eq tag t)
has_tag-bulk_row tag [] m t = refl
has_tag-bulk_row tag (n ∷ ids) m t = ground (arith, has_tag-bulk_row tag ids m t)

-- the members of a database, by id
abbrev pub known : List Member → ℕ → Bool
known members m = contains (map member_key members) m

contains-valid_ids :
    (tag : Text) (ids : List ℕ) (db : TagDb) (m : ℕ)
    → contains (valid_ids tag ids db) m
      ≡ (known db.members m && (contains ids m && not (has_tag db.member_tags m tag)))
unfolding valid_ids
contains-valid_ids tag ids db m =
    contains-valid (filter (λ n. not (contains taken n)) ids) db.members m
    ∙ ap (λ b. known db.members m && b)
        (any-filter (λ k. k == m) (λ n. not (contains taken n)) (not (contains taken m)) ids
          (λ n h. ap (λ k. not (contains taken k)) ((==_iff n m).0 h)))
    ∙ ground (arith, contains-already_tagged tag ids db.member_tags m)
  where
    taken : List ℕ
    taken = already_tagged tag ids db.member_tags

pub has_tag-bulk_apply :
    (tag : Text) (ids : List ℕ) (db : TagDb) (m : ℕ) (t : Text)
    → has_tag (bulk_apply tag ids db).1.member_tags m t ≡ (
        has_tag db.member_tags m t
        || (validate_tag tag && (known db.members m && (contains ids m && text_eq tag t))))
unfolding bulk_apply
has_tag-bulk_apply tag ids db m t = elim (Bool-cases (validate_tag tag)) [
  | inr bad ↦ ground (arith, bad)
  | inl good ↦
      rw (good, bulk_apply)
        (any-append (is_tag m t) db.member_tags (map (bulk_row tag) (valid_ids tag ids db))
          ∙ ap (λ b. has_tag db.member_tags m t || b)
              (has_tag-bulk_row tag (valid_ids tag ids db) m t
                ∙ ap (λ b. b && text_eq tag t) (contains-valid_ids tag ids db m))
          ∙ absorbed (Bool-cases (text_eq tag t)))
]
  where
    absorbed :
        (text_eq tag t ≡ true) ⊎ (text_eq tag t ≡ false)
        → (has_tag db.member_tags m t
            || (known db.members m
                && (contains ids m && not (has_tag db.member_tags m tag))
                && text_eq tag t))
          ≡ (has_tag db.member_tags m t
              || (known db.members m && (contains ids m && text_eq tag t)))
    absorbed (inl same) =
        ground (arith, same, ap (has_tag db.member_tags m) (text_eq_sound tag t same))
    absorbed (inr other) = ground (arith, other)

pub known-get :
    (members : List Member) (m : ℕ) (x : Member)
    → get member_key m members ≡ some x
    → known members m ≡ true
known-get [] m x h = absurd (cc)
known-get (y ∷ members) m x h = ground (arith, h, known-get members m x)

pub unknown-get :
    (members : List Member) (m : ℕ) → get member_key m members ≡ none → known members m ≡ false
unknown-get [] m h = refl
unknown-get (y ∷ members) m h = ground (arith, h, unknown-get members m)
