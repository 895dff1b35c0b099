-- ===== src/Allocations/Keys/Owned.antt =====
-- What `_owned_allocations` of src/ai_api/services/allocations.py accepts: the allocations of a member, in one scope.
use ai_api.Base.{
  ℕ, ◌≡◌, inl, inr, ap, true, false, some, List, [], ◌∷◌, arith, Try-cases, ok, get, any, All, refl,
  sym, ◌==◌, ◌||◌, ◌∙◌, key-get, text_eq, text_eq_sound, text_eq_refl, Bool-cases, Option-cases,
}
use ai_api.Models.{Text, Allocation}
use ai_api.Allocations.{allocation_id}
use ai_api.Allocations.Keys.{owned_from, dedupe_from, dedupe}
use ai_api.Allocations.Keys.Unique.{DistinctModels}

-- a model that is not met differs from one that is
not_met :
    (models : List Text) (t u : Text)
    → any (λ m. text_eq m t) models ≡ true
    → any (λ m. text_eq m u) models ≡ false
    → text_eq t u ≡ false
not_met models t u met new = elim (Bool-cases (text_eq t u)) [
  | inl same ↦
      let e : t ≡ u = text_eq_sound t u same in
      cc (ap (λ (v : Text). any (λ m. text_eq m v) models) e)
  | inr other ↦ other
]

module _ (member : ℕ) (rows : List Allocation) where
  none_found :
      (models : List Text) (found : List Allocation)
      → owned_from member rows models [] ≡ ok found
      → found ≡ []
  unfolding owned_from
  none_found models found h = cc

  -- One step of the loop, from what it returned.
  pub owned_from-step :
      (models : List Text) (i : ℕ) (ids : List ℕ) (found : List Allocation)
      → owned_from member rows models (i ∷ ids) ≡ ok found
      → (a : Allocation) × (rest : List Allocation) × (get allocation_id i rows ≡ some a)
        × (a.member_id ≡ member)
        × (any (λ u. text_eq u a.resource_model) models ≡ false)
        × (owned_from member rows (a.resource_model ∷ models) ids ≡ ok rest)
        × (found ≡ a ∷ rest)
  unfolding owned_from
  owned_from-step models i ids found h = elim (Option-cases (get allocation_id i rows)) [
    | inl gone ↦ absurd (ground (arith, gone))
    | inr (a, e) ↦ elim (Try-cases (owned_from member rows (a.resource_model ∷ models) ids)) [
      | inr (x, failed) ↦ absurd (ground (arith, e, failed))
      | inl (rest, later) ↦ (
        a,
        rest,
        e,
        ground (arith, e, later),
        ground (arith, e, later),
        later,
        ground (arith, e, later),
      )
    ]
  ]

  owned_from-fresh :
      (models : List Text) (ids : List ℕ) (found : List Allocation) (t : Text)
      → any (λ u. text_eq u t) models ≡ true
      → owned_from member rows models ids ≡ ok found
      → All (λ a. text_eq t a.resource_model ≡ false) found
  owned_from-fresh models [] found t met h = rw (none_found models found h) tt
  owned_from-fresh models (i ∷ ids) found t met h =
      let (a, rest, e, mine, new, later, same) = owned_from-step models i ids found h in
      rw same (
        not_met models t a.resource_model met new,
        owned_from-fresh (a.resource_model ∷ models) ids rest t (ground arith) later,
      )

  pub owned_from-All :
      (models : List Text) (ids : List ℕ) (found : List Allocation)
      → owned_from member rows models ids ≡ ok found
      → All (λ a. a.member_id ≡ member) found × DistinctModels found
  owned_from-All models [] found h = rw (none_found models found h) (tt, tt)
  owned_from-All models (i ∷ ids) found h =
      let (a, rest, e, mine, new, later, same) = owned_from-step models i ids found h in
      let (owned, distinct) = owned_from-All (a.resource_model ∷ models) ids rest later in
      rw same (
        (mine, owned),
        (
          owned_from-fresh (a.resource_model ∷ models) ids rest a.resource_model
              (ground (arith, text_eq_refl a.resource_model)) later,
          distinct,
        ),
      )

  -- The rows that are found are the table's own, under the ids that were asked for and no others.
  pub owned_from-exact :
      (models : List Text) (ids : List ℕ) (found : List Allocation)
      → owned_from member rows models ids ≡ ok found
      → All (λ a. get allocation_id a.id rows ≡ some a) found
        × ((i : ℕ) → any (λ a. a.id == i) found ≡ any (λ j. j == i) ids)
  owned_from-exact models [] found h = rw (none_found models found h) (tt, λ i. refl)
  owned_from-exact models (j ∷ ids) found h =
      let (a, rest, e, mine, new, later, same) = owned_from-step models j ids found h in
      let (own, exact) = owned_from-exact (a.resource_model ∷ models) ids rest later in
      let named : a.id ≡ j = key-get allocation_id j rows a e in
      rw same ((ap (λ (k : ℕ). get allocation_id k rows) named ∙ e, own), λ i. cc (named, exact i))

any-dedupe_from :
    (i : ℕ) (seen ids : List ℕ)
    → (any (λ j. j == i) (dedupe_from seen ids) || any (λ j. j == i) seen)
      ≡ (any (λ j. j == i) ids || any (λ j. j == i) seen)
unfolding dedupe_from
any-dedupe_from i seen [] = refl
any-dedupe_from i seen (k ∷ ids) = elim (Bool-cases (any (λ j. j == k) seen)) [
  | inl met ↦ rw met (elim (Bool-cases (k == i)) [
    | inl same ↦
        let e : k ≡ i = ground (arith, same) in
        let seen_before : any (λ j. j == i) seen ≡ true =
          ap (λ (m : ℕ). any (λ j. j == m) seen) (sym e) ∙ met in
        ground (arith, seen_before)
    | inr other ↦ ground (arith, other, any-dedupe_from i (k ∷ seen) ids)
  ])
  | inr new ↦ rw new (ground (arith, any-dedupe_from i (k ∷ seen) ids))
]

-- dropping equal ids asks for the same ids
pub any-dedupe : (i : ℕ) (ids : List ℕ) → any (λ j. j == i) (dedupe ids) ≡ any (λ j. j == i) ids
unfolding dedupe
any-dedupe i ids = ground (arith, any-dedupe_from i [] ids)
