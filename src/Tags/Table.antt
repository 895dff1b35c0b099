-- ===== src/Tags/Table.antt =====
-- The table of tags as a relation: what the statements of the service do to it.
use ai_api.Base.{
  ℕ, ◌≡◌, inl, inr, refl, ap, sym, ◌∙◌, Bool, true, false, not, Option, List, [], ◌∷◌, ◌++◌, filter,
  any, any-append, any-filter, ◌==◌, ==_refl, ◌&&◌, ◌||◌, text_eq, text_eq_sound, arith, Bool-cases,
}
use mathlib.Core.List.{append_assoc}
use ai_api.Models.{Text}
use ai_api.Access.ModelAccess.{MemberTag, TagSource, member_of}
use ai_api.Tags.{tags_of, sorted, insert_text, Added, add_one, removed_from}

abbrev pub is_tag : ℕ → Text → MemberTag → Bool
is_tag member tag r = r.member_id == member && text_eq r.tag tag

-- whether a member has a tag
abbrev pub has_tag : List MemberTag → ℕ → Text → Bool
has_tag rows member tag = any (is_tag member tag) rows

-- a row's tag is the one that is looked for
is_tag-tag : (member : ℕ) (tag : Text) (r : MemberTag) → is_tag member tag r ≡ true → r.tag ≡ tag
is_tag-tag member tag r h = text_eq_sound r.tag tag (ground (arith, h))

pub has_tag-remove :
    (member : ℕ) (tags : List Text) (rows : List MemberTag) (m : ℕ) (t : Text)
    → has_tag (filter (λ r. not (removed_from member tags r)) rows) m t
      ≡ (has_tag rows m t && not (m == member && member_of tags t))
has_tag-remove member tags rows m t =
    any-filter (is_tag m t) (λ r. not (removed_from member tags r))
      (not (m == member && member_of tags t)) rows
      (λ r h. ground (arith, h, ap (member_of tags) (is_tag-tag m t r h)))

pub has_tag-delete :
    (tag : Text) (rows : List MemberTag) (m : ℕ) (t : Text)
    → has_tag (filter (λ r. not (text_eq r.tag tag)) rows) m t
      ≡ (has_tag rows m t && not (text_eq t tag))
has_tag-delete tag rows m t =
    any-filter (is_tag m t) (λ r. not (text_eq r.tag tag)) (not (text_eq t tag)) rows
      (λ r h. ap (λ u. not (text_eq u tag)) (is_tag-tag m t r h))

-- the tags of a member are those that its rows have
pub member_of-tags_of :
    (member : ℕ) (rows : List MemberTag) (t : Text)
    → member_of (tags_of member rows) t ≡ has_tag rows member t
member_of-tags_of member [] t = refl
member_of-tags_of member (r ∷ rows) t = ground (arith, member_of-tags_of member rows t)

member_of-insert_text :
    (u : Text) (ts : List Text) (t : Text)
    → member_of (insert_text u ts) t ≡ (text_eq u t || member_of ts t)
unfolding insert_text
member_of-insert_text u [] t = refl
member_of-insert_text u (v ∷ ts) t = ground (arith, member_of-insert_text u ts t)

pub member_of-sorted : (ts : List Text) (t : Text) → member_of (sorted ts) t ≡ member_of ts t
unfolding sorted
member_of-sorted [] t = refl
member_of-sorted (u ∷ ts) t =
    member_of-insert_text u (sorted ts) t ∙ ap (λ b. text_eq u t || b) (member_of-sorted ts t)

-- the loop's set of tags is that of the table and of the rows that it has added
abbrev pub Agrees : ℕ → List MemberTag → Added → Type 0
Agrees member rows a = (t : Text) → member_of a.existing t ≡ has_tag (rows ++ a.rows) member t

-- a tag of the set is one that the table has, however it is asked for
tagged :
    (member : ℕ) (tag : Text) (rows : List MemberTag) (a : Added) (m : ℕ) (t : Text)
    → Agrees member rows a
    → member_of a.existing tag ≡ true
    → (m == member && text_eq tag t) ≡ true
    → has_tag (rows ++ a.rows) m t ≡ true
tagged member tag rows a m t agrees present same =
    let same_member : m ≡ member = ground (arith, same) in
    let same_tag : tag ≡ t = text_eq_sound tag t (ground (arith, same)) in
    ap (λ k. has_tag (rows ++ a.rows) k t) same_member
    ∙ ap (has_tag (rows ++ a.rows) member) (sym same_tag)
    ∙ sym (agrees tag)
    ∙ present

abbrev new_tag : ℕ → TagSource → Option ℕ → Text → MemberTag
new_tag member source rule tag = record {
  member_id = member;
  tag = tag;
  source = source;
  rule_id = rule;
}

has_tag-append_one :
    (rows more : List MemberTag) (r : MemberTag) (m : ℕ) (t : Text)
    → has_tag (rows ++ (more ++ r ∷ [])) m t ≡ (has_tag (rows ++ more) m t || is_tag m t r)
has_tag-append_one rows more r m t =
    ap (λ xs. has_tag xs m t) (sym (append_assoc rows more (r ∷ [])))
    ∙ any-append (is_tag m t) (rows ++ more) (r ∷ [])
    ∙ ground arith

pub has_tag-add_one :
    (member : ℕ) (source : TagSource) (rule : Option ℕ) (tag : Text) (rows : List MemberTag)
    (a : Added)
    → Agrees member rows a
    → (m : ℕ) (t : Text)
    → has_tag (rows ++ (add_one member source rule tag a).rows) m t
      ≡ (has_tag (rows ++ a.rows) m t || (m == member && text_eq tag t))
unfolding add_one
has_tag-add_one member source rule tag rows a agrees m t =
    elim (Bool-cases (member_of a.existing tag)) [
      | inl present ↦ rw present (elim (Bool-cases (m == member && text_eq tag t)) [
        | inl same ↦ ground (arith, same, tagged member tag rows a m t agrees present same)
        | inr other ↦ ground (arith, other)
      ])
      | inr absent ↦
          rw absent
            (has_tag-append_one rows a.rows (new_tag member source rule tag) m t ∙ ground arith)
    ]

pub Agrees-add_one :
    (member : ℕ) (source : TagSource) (rule : Option ℕ) (tag : Text) (rows : List MemberTag)
    (a : Added)
    → Agrees member rows a
    → Agrees member rows (add_one member source rule tag a)
unfolding add_one
Agrees-add_one member source rule tag rows a agrees t =
    elim (Bool-cases (member_of a.existing tag)) [
      | inl present ↦ rw present (agrees t)
      | inr absent ↦ rw absent (
          any-append (λ u. text_eq u t) a.existing (tag ∷ [])
          ∙ ap (λ b. b || (text_eq tag t || false)) (agrees t)
          ∙ sym (
              has_tag-append_one rows a.rows (new_tag member source rule tag) member t
              ∙ ground (arith, ==_refl member)))
    ]
