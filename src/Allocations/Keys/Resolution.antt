-- ===== src/Allocations/Keys/Resolution.antt =====
-- What a token and a model resolve to.
use ai_api.Base.{
  ◌≡◌, ◌⊎◌, inl, inr, Bool, true, false, none, some, List, [], ◌∷◌, arith, get, key-get, filter,
  find?, any, All, All-weaken, All-filter, filter-All, ◌==◌, ◌&&◌, text_eq, text_eq_sound,
  has_slash, strip_provider, Bool-cases, Option-cases,
}
use ai_api.Models.{Text, Allocation, Credential, CredentialAllocation}
use ai_api.Allocations.{Store, allocation_id}
use ai_api.Allocations.Keys.{credential_in_allocation_scope}
use ai_api.Allocations.Keys.Lookup.{
  joined, in_scope, scope_allocations, exact_allocation, only_one, resolve_scope_allocation,
}

-- Each link carries the model of the allocation that it names.
abbrev pub Denormalised : Store → Type 0
Denormalised st =
    All
      (λ l.
        (a : Allocation)
        → get allocation_id l.allocation_id st.allocations ≡ some a
        → a.resource_model ≡ l.resource_model)
      st.links

-- some link of the key names the row of the allocation
abbrev Linked : Credential → List Allocation → Allocation → CredentialAllocation → Type 0
Linked c rows a l = (in_scope c l ≡ true) × (get allocation_id l.allocation_id rows ≡ some a)

module _ (c : Credential) (rows : List Allocation) where
  Linked-any :
      (a : Allocation) (l : CredentialAllocation) (links : List CredentialAllocation)
      → Linked c rows a l
      → any (λ k. k.credential_id == c.id && k.allocation_id == a.id) (l ∷ links) ≡ true
  Linked-any a l links h = ground (arith, key-get allocation_id l.allocation_id rows a h.1)

  exact-any :
      (model : Text) (a : Allocation) (links : List CredentialAllocation)
      → elim (find? (λ l. in_scope c l && text_eq l.resource_model model) links) [
        | none ↦ none
        | some l ↦ get allocation_id l.allocation_id rows
      ]
        ≡ some a
      → any (λ k. k.credential_id == c.id && k.allocation_id == a.id) links ≡ true
  exact-any model a [] h = cc
  exact-any model a (l ∷ links) h =
      ground (arith, exact-any model a links, key-get allocation_id l.allocation_id rows a)

  exact-model :
      (model : Text) (a : Allocation) (links : List CredentialAllocation)
      → All
          (λ l.
            (b : Allocation)
            → get allocation_id l.allocation_id rows ≡ some b
            → b.resource_model ≡ l.resource_model)
          links
      → elim (find? (λ l. in_scope c l && text_eq l.resource_model model) links) [
        | none ↦ none
        | some l ↦ get allocation_id l.allocation_id rows
      ]
        ≡ some a
      → a.resource_model ≡ model
  exact-model model a [] d h = cc
  exact-model model a (l ∷ links) d h =
      ground (arith, exact-model model a links d.1, d.0 a, text_eq_sound l.resource_model model)

  -- `credential_in_allocation_scope` over a list of links, shut
  linked : List CredentialAllocation → Allocation → Bool
  linked links a = any (λ k. k.credential_id == c.id && k.allocation_id == a.id) links

  linked-later :
      (l : CredentialAllocation) (links : List CredentialAllocation) (a : Allocation)
      → linked links a ≡ true
      → linked (l ∷ links) a ≡ true
  unfolding linked
  linked-later l links a h = ground arith

  linked-here :
      (l : CredentialAllocation) (links : List CredentialAllocation) (a : Allocation)
      → Linked c rows a l
      → linked (l ∷ links) a ≡ true
  unfolding linked
  linked-here l links a h = Linked-any a l links h

  -- every row of the join is linked
  joined-All :
      (links : List CredentialAllocation)
      → All (λ a. linked links a ≡ true) (joined (filter (in_scope c) links) rows)
  unfolding joined
  joined-All [] = tt
  joined-All (l ∷ links) =
      let later =
        All-weaken _ (λ a. linked (l ∷ links) a ≡ true) (joined (filter (in_scope c) links) rows)
          (linked-later l links) (joined-All links) in
      elim (Bool-cases (in_scope c l)) [
        | inr out ↦ rw out later
        | inl mine ↦ elim (Option-cases (get allocation_id l.allocation_id rows)) [
          | inl gone ↦ rw (mine, gone, joined) later
          | inr (a, found) ↦ rw (mine, found, joined) (linked-here l links a (mine, found), later)
        ]
      ]

only_one-All {ℓ κ} :
    {A : Type ℓ} (P : A → Type κ) (xs : List A) (a : A) → only_one xs ≡ some a → All P xs → P a
only_one-All P [] a e h = absurd (cc)
only_one-All P (x ∷ []) a e h = let same : x ≡ a = cc in rw same at h.0
only_one-All P (x ∷ y ∷ xs) a e h = absurd (cc)

only_one-single {ℓ} : {A : Type ℓ} (xs : List A) (a : A) → only_one xs ≡ some a → xs ≡ a ∷ []
only_one-single [] a e = absurd (cc)
only_one-single (x ∷ []) a e = cc
only_one-single (x ∷ y ∷ xs) a e = absurd (cc)

-- the rows that a bare model name stands for
abbrev pub aliases : Credential → Text → Store → List Allocation
aliases c model st =
    filter (λ a. text_eq (strip_provider a.resource_model) model) (scope_allocations c st)

-- A resolution is by the exact model or by the one alias of a bare name.
resolution-cases :
    (c : Credential) (model : Text) (st : Store) (a : Allocation)
    → resolve_scope_allocation c model st ≡ some a
    → (exact_allocation c model st ≡ some a)
      ⊎ ((exact_allocation c model st ≡ none)
          × (has_slash model ≡ false)
          × (only_one (aliases c model st) ≡ some a))
unfolding resolve_scope_allocation
resolution-cases c model st a h = ground arith

-- A key resolves to allocations in its own scope only, whatever model is asked for.
pub resolution_in_scope :
    (c : Credential) (model : Text) (st : Store) (a : Allocation)
    → resolve_scope_allocation c model st ≡ some a
    → credential_in_allocation_scope c.id a.id st ≡ true
unfolding exact_allocation scope_allocations credential_in_allocation_scope linked
resolution_in_scope c model st a h = elim (resolution-cases c model st a h) [
  | inl exact ↦ exact-any c st.allocations model a st.links exact
  | inr (_, _, alias) ↦
      only_one-All (λ b. linked c st.allocations st.links b ≡ true) _ a alias
        (All-filter _ _ _ (joined-All c st.allocations st.links))
]

-- The allocation that a model resolves to is of that model, or of the model's one provider-prefixed
-- form where the request has no prefix. In the second case no other row of the scope has that bare
-- name. Links are assumed to carry the models of their allocations, as the writes of links do.
pub resolution_model :
    (c : Credential) (model : Text) (st : Store) (a : Allocation)
    → Denormalised st
    → resolve_scope_allocation c model st ≡ some a
    → (a.resource_model ≡ model)
      ⊎ ((has_slash model ≡ false)
          × (strip_provider a.resource_model ≡ model)
          × (aliases c model st ≡ a ∷ []))
unfolding exact_allocation
resolution_model c model st a d h = elim (resolution-cases c model st a h) [
  | inl exact ↦ inl (exact-model c st.allocations model a st.links d exact)
  | inr (_, bare, alias) ↦ inr (
    bare,
    only_one-All (λ b. strip_provider b.resource_model ≡ model) (aliases c model st) a alias
        (All-weaken _ _ (aliases c model st) (λ b e. text_eq_sound _ model e)
          (filter-All _ (scope_allocations c st))),
    only_one-single (aliases c model st) a alias,
  )
]
