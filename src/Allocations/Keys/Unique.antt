-- ===== src/Allocations/Keys/Unique.antt =====
-- Links of keys with no model twice under one key: UNIQUE(credential_id, resource_model) as a property
-- of the table.
use ai_api.Base.{
  ℕ, ◌≡◌, refl, Bool, true, false, List, [], ◌∷◌, ◌++◌, map, arith, if◌then◌else◌, filter, All,
  All-filter, All-append, ◌==◌, ◌&&◌, text_eq,
}
use ai_api.Models.{Allocation, Credential, CredentialAllocation}
use ai_api.Allocations.{link_of}

-- no model stands twice
abbrev pub DistinctModels : List Allocation → Type 0
DistinctModels [] = Unit
DistinctModels (a ∷ rows) =
    All (λ b. text_eq a.resource_model b.resource_model ≡ false) rows × DistinctModels rows

-- A table of links satisfies UNIQUE(credential_id, resource_model).
abbrev pub clash : CredentialAllocation → CredentialAllocation → Bool
clash k l = k.credential_id == l.credential_id && text_eq k.resource_model l.resource_model

abbrev pub UniqueModels : List CredentialAllocation → Type 0
UniqueModels [] = Unit
UniqueModels (l ∷ ls) = All (λ k. clash l k ≡ false) ls × UniqueModels ls

pub All-if {ℓ κ} :
    {A : Type ℓ} (P : A → Type κ) (b : Bool) (x : A) (xs : List A)
    → (b ≡ true → P x)
    → All P xs
    → All P (if b then x ∷ xs else xs)
All-if P true x xs first later = (first refl, later)
All-if P false x xs first later = later

UniqueModels-if :
    (b : Bool) (l : CredentialAllocation) (ls : List CredentialAllocation)
    → All (λ k. clash l k ≡ false) ls
    → UniqueModels ls
    → UniqueModels (if b then l ∷ ls else ls)
UniqueModels-if true l ls new h = (new, h)
UniqueModels-if false l ls new h = h

pub UniqueModels-filter :
    (p : CredentialAllocation → Bool) (ls : List CredentialAllocation)
    → UniqueModels ls
    → UniqueModels (filter p ls)
UniqueModels-filter p [] h = tt
UniqueModels-filter p (l ∷ ls) h =
    UniqueModels-if (p l) l (filter p ls) (All-filter _ p ls h.0) (UniqueModels-filter p ls h.1)

pub UniqueModels-append :
    (ks ls : List CredentialAllocation)
    → UniqueModels ks
    → UniqueModels ls
    → All (λ k. All (λ l. clash k l ≡ false) ls) ks
    → UniqueModels (ks ++ ls)
UniqueModels-append [] ls hk hl cross = hl
UniqueModels-append (k ∷ ks) ls hk hl cross =
    (All-append _ ks ls hk.0 cross.0, UniqueModels-append ks ls hk.1 hl cross.1)

links-All :
    (c : Credential) (a : Allocation) (rows : List Allocation)
    → All (λ b. text_eq a.resource_model b.resource_model ≡ false) rows
    → All (λ l. clash (link_of c a) l ≡ false) (map (link_of c) rows)
links-All c a [] h = tt
links-All c a (b ∷ rows) h = (ground (arith, h.0), links-All c a rows h.1)

-- New links of one key, for allocations of distinct models.
pub UniqueModels-links :
    (c : Credential) (rows : List Allocation)
    → DistinctModels rows
    → UniqueModels (map (link_of c) rows)
UniqueModels-links c [] h = tt
UniqueModels-links c (a ∷ rows) h = (links-All c a rows h.0, UniqueModels-links c rows h.1)

-- the fresh id of a key stands in no link
abbrev pub NewKey : ℕ → List CredentialAllocation → Type 0
NewKey fresh links = All (λ l. (l.credential_id == fresh) ≡ false) links

pub NewKey-cross :
    (c : Credential) (links : List CredentialAllocation) (rows : List Allocation)
    → NewKey c.id links
    → All (λ k. All (λ l. clash k l ≡ false) (map (link_of c) rows)) links
NewKey-cross c [] rows h = tt
NewKey-cross c (k ∷ links) rows h = (against k rows h.0, NewKey-cross c links rows h.1)
  where
    against :
        (l : CredentialAllocation) (more : List Allocation)
        → (l.credential_id == c.id) ≡ false
        → All (λ n. clash l n ≡ false) (map (link_of c) more)
    against l [] e = tt
    against l (a ∷ more) e = (ground arith, against l more e)
