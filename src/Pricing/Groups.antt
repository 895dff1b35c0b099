-- ===== src/Pricing/Groups.antt =====
-- The dict of the versions by key: the group of a key holds the versions of that key.

use mathlib.Core.List.{append_assoc, append-nil}
use ai_api.Base.{
  ◌≡◌, All, inl, inr, refl, ap, sym, true, false, List, [], ◌∷◌, ◌++◌, arith, filter, text_eq,
  text_eq_sound, text_eq_refl, if◌then◌else◌, Bool-cases,
}
use ai_api.Models.{Text}
use ai_api.Pricing.{PriceList, has_key}
use ai_api.Pricing.Views.{Group, is_group, add_version, group_from, by_key, versions_of}

text_eq_same : (s t u : Text) → text_eq s t ≡ true → text_eq s u ≡ text_eq t u
text_eq_same s t u h = ap (λ x. text_eq x u) (text_eq_sound s t h)

-- two texts that are equal to a third are equal
text_eq_apart : (s t u : Text) → text_eq s t ≡ false → text_eq s u ≡ true → text_eq t u ≡ false
text_eq_apart s t u h k = elim (Bool-cases (text_eq t u)) [
  | inr apart ↦ apart
  | inl same ↦
      absurd (ground (arith, h, text_eq_sound s u k, text_eq_sound t u same, text_eq_refl u))
]

is_group-has_key :
    (p m : Text) (r : PriceList) (g : Group)
    → is_group r.provider r.model g ≡ true
    → is_group p m g ≡ has_key p m r
is_group-has_key p m r g h =
    ground (arith, h, text_eq_same g.provider r.provider p, text_eq_same g.model r.model m)

-- groups are by key: a group of another key is not of the row's
is_group-other :
    (p m : Text) (r : PriceList) (g : Group)
    → is_group r.provider r.model g ≡ false
    → is_group p m g ≡ true
    → has_key p m r ≡ false
is_group-other p m r g h k = elim (Bool-cases (has_key p m r)) [
  | inr apart ↦ apart
  | inl same ↦ absurd (
      ground (
        arith,
        h,
        k,
        same,
        text_eq_sound g.provider p,
        text_eq_sound g.model m,
        text_eq_sound r.provider p,
        text_eq_sound r.model m,
        text_eq_refl p,
        text_eq_refl m,
      ))
]

versions_of-add_version :
    (p m : Text) (r : PriceList) (groups : List Group)
    → versions_of p m (add_version r groups)
      ≡ (if has_key p m r then versions_of p m groups ++ r ∷ [] else versions_of p m groups)
unfolding versions_of add_version
versions_of-add_version p m r [] = ground arith
versions_of-add_version p m r (g ∷ groups) =
    grind (
      arith,
      is_group-has_key p m r g,
      is_group-other p m r g,
      versions_of-add_version p m r groups,
    )

versions_of-group_from :
    (p m : Text) (groups : List Group) (rows : List PriceList)
    → versions_of p m (group_from groups rows) ≡ versions_of p m groups ++ filter (has_key p m) rows
unfolding group_from
versions_of-group_from p m groups [] = sym (append-nil (versions_of p m groups))
versions_of-group_from p m groups (r ∷ rows) = elim (Bool-cases (has_key p m r)) [
  | inl same ↦ ground (
    arith,
    same,
    versions_of-group_from p m (add_version r groups) rows,
    versions_of-add_version p m r groups,
    append_assoc (versions_of p m groups) (r ∷ []) (filter (has_key p m) rows),
  )
  | inr apart ↦ ground (
    arith,
    apart,
    versions_of-group_from p m (add_version r groups) rows,
    versions_of-add_version p m r groups,
  )
]

-- the group of a key holds its versions, in the order of the table
pub versions_of-by_key :
    (p m : Text) (rows : List PriceList) → versions_of p m (by_key rows) ≡ filter (has_key p m) rows
unfolding versions_of
versions_of-by_key p m rows = versions_of-group_from p m [] rows

pub text_eq_sym : (s t : Text) → text_eq s t ≡ text_eq t s
unfolding text_eq
text_eq_sym [] [] = refl
text_eq_sym [] (d ∷ t) = refl
text_eq_sym (c ∷ s) [] = refl
text_eq_sym (c ∷ s) (d ∷ t) = ground (arith, text_eq_sym s t)

-- no two groups have the same key
abbrev pub Apart : List Group → Type 0
Apart [] = Unit
Apart (g ∷ groups) = All (λ h. is_group g.provider g.model h ≡ false) groups × Apart groups

All-add_version :
    (p m : Text) (r : PriceList) (groups : List Group)
    → has_key p m r ≡ false
    → All (λ h. is_group p m h ≡ false) groups
    → All (λ h. is_group p m h ≡ false) (add_version r groups)
unfolding add_version
All-add_version p m r [] e h = (e, tt)
All-add_version p m r (g ∷ groups) e h = elim (Bool-cases (is_group r.provider r.model g)) [
  | inl same ↦ rw same (h.0, h.1)
  | inr other ↦ rw other (h.0, All-add_version p m r groups e h.1)
]

Apart-add_version :
    (r : PriceList) (groups : List Group) → Apart groups → Apart (add_version r groups)
unfolding add_version
Apart-add_version r [] h = (tt, tt)
Apart-add_version r (g ∷ groups) h = elim (Bool-cases (is_group r.provider r.model g)) [
  | inl same ↦ rw same (h.0, h.1)
  | inr other ↦ rw other (
    All-add_version g.provider g.model r groups
        (ground (arith, other, text_eq_sym r.provider g.provider, text_eq_sym r.model g.model)) h.0,
    Apart-add_version r groups h.1,
  )
]

pub Apart-group_from :
    (groups : List Group) (rows : List PriceList) → Apart groups → Apart (group_from groups rows)
unfolding group_from
Apart-group_from groups [] h = h
Apart-group_from groups (r ∷ rows) h =
    Apart-group_from (add_version r groups) rows (Apart-add_version r groups h)
