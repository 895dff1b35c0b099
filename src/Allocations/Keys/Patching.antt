-- ===== src/Allocations/Keys/Patching.antt =====
-- What a patch of a key's scope adds to the table of links, and what it removes.
use ai_api.Base.{
  ℕ, ◌≡◌, ◌⊎◌, inl, inr, refl, Bool, true, false, List, [], ◌∷◌, ◌++◌, map, arith, Try-cases,
  filter, any, All, ◌||◌, not, text_eq, Bool-cases,
}
use ai_api.Models.{Text, Allocation, Credential, CredentialAllocation}
use ai_api.Allocations.{Store, link_of}
use ai_api.Allocations.Keys.{
  owned_from, dedupe, owned_allocations, removed, meets, flush_scope, patch_with, patch_key, listed,
}
use ai_api.Allocations.Keys.Lookup.{in_scope}
use ai_api.Allocations.Keys.Unique.{
  DistinctModels, clash, UniqueModels, All-if, UniqueModels-filter, UniqueModels-append,
  UniqueModels-links,
}
use ai_api.Allocations.Keys.Owned.{owned_from-All}

any-split :
    (t : Text) (f : Allocation → Bool) (rows : List Allocation)
    → any (λ a. text_eq t a.resource_model || f a) rows ≡ false
    → All (λ a. text_eq t a.resource_model ≡ false) rows × (any f rows ≡ false)
any-split t f [] h = (tt, refl)
any-split t f (a ∷ rows) h = ground (arith, any-split t f rows)

module _ (c : Credential) (remove : List ℕ) (rows : List Allocation) where
  against_other :
      (k : CredentialAllocation) (more : List Allocation)
      → in_scope c k ≡ false
      → All (λ l. clash k l ≡ false) (map (link_of c) more)
  against_other k [] e = tt
  against_other k (a ∷ more) e = (ground arith, against_other k more e)

  against_kept :
      (k : CredentialAllocation) (more : List Allocation)
      → All (λ a. text_eq k.resource_model a.resource_model ≡ false) more
      → All (λ l. clash k l ≡ false) (map (link_of c) more)
  against_kept k [] e = tt
  against_kept k (a ∷ more) e = (ground (arith, e.0), against_kept k more e.1)

  abbrev kept_of : List CredentialAllocation → List CredentialAllocation
  kept_of links = filter (λ l. not (listed remove l.allocation_id)) (filter (in_scope c) links)

  kept-step :
      (k : CredentialAllocation) (links : List CredentialAllocation)
      → any (meets (kept_of (k ∷ links))) rows ≡ false
      → (any (meets (kept_of links)) rows ≡ false)
        × (in_scope c k ≡ true
            → listed remove k.allocation_id ≡ false
            → All (λ a. text_eq k.resource_model a.resource_model ≡ false) rows)
  kept-step k links h = elim (Bool-cases (in_scope c k)) [
    | inr other ↦ ((rw other at h), λ mine out. absurd (cc))
    | inl mine ↦
        let h' = rw mine at h in
        elim (Bool-cases (listed remove k.allocation_id)) [
          | inl out ↦ ((rw out at h'), λ _ kept. absurd (cc))
          | inr kept ↦
              let (first, later) =
                any-split k.resource_model (meets (kept_of links)) rows (rw kept at h') in
              (later, λ _ _. first)
        ]
  ]

  patch-cross :
      (links : List CredentialAllocation)
      → any (meets (kept_of links)) rows ≡ false
      → All
          (λ k. All (λ l. clash k l ≡ false) (map (link_of c) rows))
          (filter (λ l. not (removed c remove l)) links)
  patch-cross [] h = tt
  patch-cross (k ∷ links) h =
      let (later, first) = kept-step k links h in
      All-if (λ j. All (λ l. clash j l ≡ false) (map (link_of c) rows)) (not (removed c remove k)) k
        (filter (λ l. not (removed c remove l)) links)
        (λ stays. elim (Bool-cases (in_scope c k)) [
          | inr other ↦ against_other k rows other
          | inl mine ↦ against_kept k rows (first mine (ground arith))
        ])
        (patch-cross links later)

abbrev patched : Credential → List ℕ → List Allocation → Store → List CredentialAllocation
patched c remove added st = filter (λ l. not (removed c remove l)) st.links ++ map (link_of c) added

patch_with-cases :
    (c : Credential) (remove : List ℕ) (added : List Allocation) (st : Store)
    → ((patch_with c remove added st).1.links ≡ st.links)
      ⊎ (((patch_with c remove added st).1.links ≡ patched c remove added st)
          × (any (meets (kept_of c remove added st.links)) added ≡ false))
unfolding patch_with flush_scope
patch_with-cases c remove added st = ground arith

patch_with_unique :
    (c : Credential) (remove : List ℕ) (added : List Allocation) (st : Store)
    → UniqueModels st.links
    → DistinctModels added
    → UniqueModels (patch_with c remove added st).1.links
patch_with_unique c remove added st unique distinct = elim (patch_with-cases c remove added st) [
  | inl same ↦ rw same unique
  | inr (new, free) ↦ rw new (
      UniqueModels-append _ (map (link_of c) added) (UniqueModels-filter _ st.links unique)
        (UniqueModels-links c added distinct) (patch-cross c remove added st.links free))
]

pub patch_key_unique :
    (c : Credential) (add remove : List ℕ) (st : Store)
    → UniqueModels st.links
    → UniqueModels (patch_key c add remove st).1.links
unfolding patch_key owned_allocations
patch_key_unique c add remove st unique =
    let mine = map (λ l. l.allocation_id) (filter (in_scope c) st.links) in
    let ids = dedupe (filter (λ i. not (listed mine i)) add) in
    elim (Try-cases (owned_from c.member_id st.allocations [] ids)) [
      | inr (x, failed) ↦ rw (failed, patch_key) unique
      | inl (added, e) ↦
          rw (e, patch_key)
            (patch_with_unique c remove added st unique
              (owned_from-All c.member_id st.allocations [] ids added e).1)
    ]
