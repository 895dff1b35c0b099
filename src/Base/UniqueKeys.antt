-- ===== src/Base/UniqueKeys.antt =====
-- Tables with two unique columns: a row by one column after a change by the other.
use mathlib.Core.Option
use Prim.Native.Nat.{ℕ}
use mathlib.Core.Path.{◌≡◌, refl, ap}
use mathlib.Core.Bool.{Bool, false}
use mathlib.Core.Option.{Option, none, some}
use mathlib.Core.List.{List, [], ◌∷◌, ◌++◌, map}
use native.Mathlib.Omega.{arith}
use ai_api.Base.Tests.{◌==◌, ==_refl, if◌then◌else◌, Bool-cases}
use mathlib.Core.Logic.{inl, inr}
use ai_api.Base.Lists.{All, filter, Has}
use ai_api.Base.Tables.{get, modify}

-- no number stands twice
abbrev pub Distinct : List ℕ → Type 0
Distinct [] = Unit
Distinct (x ∷ xs) = All (λ y. (x == y) ≡ false) xs × Distinct xs

pub Distinct-append_new :
    (xs : List ℕ) (y : ℕ) → All (λ x. (x == y) ≡ false) xs → Distinct xs → Distinct (xs ++ y ∷ [])
Distinct-append_new [] y new h = (tt, tt)
Distinct-append_new (x ∷ xs) y new h = (All-last xs new.0 h.0, Distinct-append_new xs y new.1 h.1)
  where
    All-last :
        (zs : List ℕ)
        → (x == y) ≡ false
        → All (λ z. (x == z) ≡ false) zs
        → All (λ z. (x == z) ≡ false) (zs ++ y ∷ [])
    All-last [] e k = (e, tt)
    All-last (z ∷ zs) e k = (k.0, All-last zs e k.1)

module _ {ℓ} {A : Type ℓ} (key other : A → ℕ) where
  -- a row by one key after an UPDATE by another
  pub get-modify_other :
      (k j : ℕ) (f : A → A) (rows : List A)
      → ((x : A) → key (f x) ≡ key x)
      → get key k (modify other j f rows)
        ≡ Option.map (λ x. if other x == j then f x else x) (get key k rows)
  get-modify_other k j f [] h = refl
  get-modify_other k j f (x ∷ xs) h = ground (arith, h x, get-modify_other k j f xs h)

  pub map-modify_other :
      (j : ℕ) (f : A → A) (rows : List A)
      → ((x : A) → key (f x) ≡ key x)
      → map key (modify other j f rows) ≡ map key rows
  map-modify_other j f [] h = refl
  map-modify_other j f (x ∷ xs) h = ground (arith, h x, map-modify_other j f xs h)

  found-All :
      (k n : ℕ) (rows : List A) (a : A)
      → get key k rows ≡ some a
      → All (λ y. (n == y) ≡ false) (map other rows)
      → (n == other a) ≡ false
  found-All k n [] a h all = absurd (cc)
  found-All k n (x ∷ xs) a h all = ground (arith, found-All k n xs a, all.0, all.1)

  -- where the other key is unique, it finds the row that the first one found
  pub same_row :
      (k : ℕ) (rows : List A) (a : A)
      → Distinct (map other rows)
      → get key k rows ≡ some a
      → get other (other a) rows ≡ some a
  same_row k [] a d h = absurd (cc)
  same_row k (x ∷ xs) a d h =
      grind (arith, same_row k xs a, d.1, found-All k (other x) xs a, d.0, ==_refl (other a))

module _ {ℓ} {A : Type ℓ} (key other : A → ℕ) where
  -- an UPDATE by the other column that gives no other row the key
  pub get-modify_away :
      (k j : ℕ) (f : A → A) (rows : List A) (a : A)
      → ((x : A) → key (f x) ≡ k → key x ≡ k)
      → get key k rows ≡ some a
      → (other a == j) ≡ false
      → get key k (modify other j f rows) ≡ some a
  get-modify_away k j f [] a h found away = absurd (cc)
  get-modify_away k j f (x ∷ xs) a h found away = ground (arith, h x, get-modify_away k j f xs a h)

pub All-missing {ℓ} :
    {A : Type ℓ} (key : A → ℕ) (k : ℕ) (rows : List A)
    → get key k rows ≡ none
    → All (λ x. (x == k) ≡ false) (map key rows)
All-missing key k [] h = tt
All-missing key k (x ∷ xs) h = (ground arith, All-missing key k xs (ground arith))

pub map-append_one {ℓ κ} :
    {A : Type ℓ} {B : Type κ} (f : A → B) (xs : List A) (x : A)
    → map f (xs ++ x ∷ []) ≡ map f xs ++ f x ∷ []
map-append_one f [] x = refl
map-append_one f (y ∷ ys) x = ap (λ zs. f y ∷ zs) (map-append_one f ys x)

module _ {ℓ} {A : Type ℓ} (key : A → ℕ) where
  All-filtered :
      (n : ℕ) (q : A → Bool) (rows : List A)
      → All (λ m. (n == m) ≡ false) (map key rows)
      → All (λ m. (n == m) ≡ false) (map key (filter q rows))
  All-filtered n q [] h = tt
  All-filtered n q (x ∷ rows) h = elim (Bool-cases (q x)) [
    | inl kept ↦ rw kept (h.0, All-filtered n q rows h.1)
    | inr dropped ↦ rw dropped (All-filtered n q rows h.1)
  ]

  pub Distinct-filter :
      (q : A → Bool) (rows : List A) → Distinct (map key rows) → Distinct (map key (filter q rows))
  Distinct-filter q [] h = tt
  Distinct-filter q (x ∷ rows) h = elim (Bool-cases (q x)) [
    | inl kept ↦ rw kept (All-filtered (key x) q rows h.0, Distinct-filter q rows h.1)
    | inr dropped ↦ rw dropped (Distinct-filter q rows h.1)
  ]

module _ {A : Type 0} (key : A → ℕ) where
  -- where keys are distinct, a row is found by its key
  pub get-Has :
      (rows : List A) (x : A) → Distinct (map key rows) → Has x rows → get key (key x) rows ≡ some x
  get-Has [] x d h = absurd h
  get-Has (y ∷ rows) x d h = elim h [
    | inl same ↦ ground (arith, same, ==_refl (key x))
    | inr more ↦ ground (arith, get-Has rows x d.1 more, All-apart rows x d.0 more)
  ]
    where
      All-apart :
          (zs : List A) (z : A)
          → All (λ n. (key y == n) ≡ false) (map key zs)
          → Has z zs
          → (key y == key z) ≡ false
      All-apart [] z k m = absurd m
      All-apart (w ∷ zs) z k m = elim m [
        | inl same ↦ ground (arith, k.0, same)
        | inr more ↦ All-apart zs z k.1 more
      ]
