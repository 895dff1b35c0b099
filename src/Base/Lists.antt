-- ===== src/Base/Lists.antt =====
-- Lists: length over the native numbers, a filter by a Boolean test, the first match, sums.
use Prim.Native.Nat.{ℕ, suc, ◌+◌}
use mathlib.Core.Path.{◌≡◌, refl, ap, sym, subst, ◌∙◌}
use mathlib.Core.Bool.{Bool, true, false, ◌||◌, ◌&&◌}
use mathlib.Core.List.{List, [], ◌∷◌, ◌++◌, map}
use mathlib.Core.Option.{Option, none, some}
use native.Mathlib.Omega.{arith}
use mathlib.Core.Logic.{◌⊎◌, inl, inr}
use ai_api.Base.Tests.{if◌then◌else◌, Bool-cases}

module _ {ℓ} {A : Type ℓ} where
  abbrev pub length : List A → ℕ
  length [] = 0
  length (x ∷ xs) = suc (length xs)

  -- `[x for x in xs if p(x)]`, and a WHERE clause
  abbrev pub filter : (A → Bool) → List A → List A
  filter p [] = []
  filter p (x ∷ xs) = if p x then x ∷ filter p xs else filter p xs

  -- `next((x for x in xs if p(x)), None)`, and `scalar_one_or_none` on a unique column
  abbrev pub find? : (A → Bool) → List A → Option A
  find? p [] = none
  find? p (x ∷ xs) = if p x then some x else find? p xs

  abbrev pub any : (A → Bool) → List A → Bool
  any p [] = false
  any p (x ∷ xs) = p x || any p xs

  -- an UPDATE with a WHERE clause
  abbrev pub update_where : (A → Bool) → (A → A) → List A → List A
  update_where p f [] = []
  update_where p f (x ∷ xs) = (if p x then f x else x) ∷ update_where p f xs

  -- Every element has the property.
  abbrev pub All {κ} : (A → Type κ) → List A → Type κ
  All P [] = Unit
  All P (x ∷ xs) = P x × All P xs

  abbrev pub sum_by : (A → ℕ) → List A → ℕ
  sum_by f [] = 0
  sum_by f (x ∷ xs) = f x + sum_by f xs

  pub length-append : (xs ys : List A) → length (xs ++ ys) ≡ length xs + length ys
  length-append [] ys = omega arith
  length-append (x ∷ xs) ys = omega (arith, length-append xs ys)

pub length-map {ℓ κ} :
    {A : Type ℓ} {B : Type κ} (f : A → B) (xs : List A) → length (map f xs) ≡ length xs
length-map f [] = refl
length-map f (x ∷ xs) = ap suc (length-map f xs)

module _ {ℓ κ ν} {A : Type ℓ} (P : A → Type κ) (Q : A → Type ν) where
  pub All-weaken : (xs : List A) → ((x : A) → P x → Q x) → All P xs → All Q xs
  All-weaken [] f h = tt
  All-weaken (x ∷ xs) f h = (f x h.0, All-weaken xs f h.1)

module _ {ℓ κ} {A : Type ℓ} (P : A → Type κ) where
  pub All-filter : (p : A → Bool) (xs : List A) → All P xs → All P (filter p xs)
  All-filter p [] h = tt
  All-filter p (x ∷ xs) h = elim (Bool-cases (p x)) [
    | inl kept ↦ rw kept (h.0, All-filter p xs h.1)
    | inr dropped ↦ rw dropped (All-filter p xs h.1)
  ]

  pub All-append : (xs ys : List A) → All P xs → All P ys → All P (xs ++ ys)
  All-append [] ys h k = k
  All-append (x ∷ xs) ys h k = (h.0, All-append xs ys h.1 k)

module _ {ℓ} {A : Type ℓ} where
  -- what a filter keeps passes its test
  pub filter-All : (p : A → Bool) (xs : List A) → All (λ x. p x ≡ true) (filter p xs)
  filter-All p [] = tt
  filter-All p (x ∷ xs) = elim (Bool-cases (p x)) [
    | inl kept ↦ rw kept (kept, filter-All p xs)
    | inr dropped ↦ rw dropped (filter-All p xs)
  ]

module _ {A : Type 0} where
  -- an element and its place in a list
  abbrev pub Has : A → List A → Type 0
  Has x [] = ⊥
  Has x (y ∷ ys) = (x ≡ y) ⊎ Has x ys

  -- what a filter keeps is of the list and passes the test
  pub filter-Has :
      (p : A → Bool) (xs : List A) (x : A) → Has x (filter p xs) → Has x xs × (p x ≡ true)
  filter-Has p [] x h = absurd h
  filter-Has p (y ∷ ys) x h = elim (Bool-cases (p y)) [
    | inr dropped ↦ later (filter-Has p ys x (rw dropped at h))
    | inl kept ↦
        let k : Has x (y ∷ filter p ys) = rw kept at h in
        elim k [
          | inl same ↦ (inl same, ap p same ∙ kept)
          | inr more ↦ later (filter-Has p ys x more)
        ]
  ]
    where
      later : Has x ys × (p x ≡ true) → Has x (y ∷ ys) × (p x ≡ true)
      later k = (inr k.0, k.1)

  -- a filter that keeps nothing
  pub filter_nothing : (p : A → Bool) (xs : List A) → filter p xs ≡ [] → All (λ x. p x ≡ false) xs
  filter_nothing p [] h = tt
  filter_nothing p (x ∷ xs) h = elim (Bool-cases (p x)) [
    | inl kept ↦ absurd (ground (arith, kept, h))
    | inr dropped ↦ (dropped, filter_nothing p xs (ground (arith, dropped, h)))
  ]

  pub All-Has {κ} : (P : A → Type κ) (xs : List A) (x : A) → All P xs → Has x xs → P x
  All-Has P [] x h m = absurd m
  All-Has P (y ∷ ys) x h m = elim m [
    | inl same ↦ subst P (sym same) h.0
    | inr more ↦ All-Has P ys x h.1 more
  ]

  -- what holds of all that a filter keeps holds of whatever passes its test
  pub All-of_filter {κ} :
      (P : A → Type κ) (p : A → Bool) (xs : List A)
      → All P (filter p xs)
      → All (λ x. p x ≡ true → P x) xs
  All-of_filter P p [] h = tt
  All-of_filter P p (x ∷ xs) h = elim (Bool-cases (p x)) [
    | inl kept ↦
        let k : P x × All P (filter p xs) = rw kept at h in (λ _. k.0, All-of_filter P p xs k.1)
    | inr dropped ↦
        (λ passes. absurd (ground (arith, dropped, passes)), All-of_filter P p xs (rw dropped at h))
  ]

  pub filter-append :
      (p : A → Bool) (xs ys : List A) → filter p (xs ++ ys) ≡ filter p xs ++ filter p ys
  filter-append p [] ys = refl
  filter-append p (x ∷ xs) ys = ground (arith, filter-append p xs ys)

  -- two tests that agree on a list keep the same
  pub filter_same :
      (p q : A → Bool) (xs : List A) → All (λ x. p x ≡ q x) xs → filter p xs ≡ filter q xs
  filter_same p q [] h = refl
  filter_same p q (x ∷ xs) h = ground (arith, h.0, filter_same p q xs h.1)

module _ {ℓ} {A : Type ℓ} where
  pub any-append : (p : A → Bool) (xs ys : List A) → any p (xs ++ ys) ≡ (any p xs || any p ys)
  any-append p [] ys = refl
  any-append p (x ∷ xs) ys = ground (arith, any-append p xs ys)

  -- a filter whose test answers alike for all that is looked for
  pub any-filter :
      (p q : A → Bool) (b : Bool) (xs : List A)
      → ((x : A) → p x ≡ true → q x ≡ b)
      → any p (filter q xs) ≡ (any p xs && b)
  any-filter p q b [] h = refl
  any-filter p q b (x ∷ xs) h = elim (Bool-cases (p x)) [
    | inl looked_for ↦ ground (arith, looked_for, h x looked_for, any-filter p q b xs h)
    | inr other ↦ ground (arith, other, any-filter p q b xs h)
  ]

module _ {ℓ κ ν} {A : Type ℓ} (P : A → Type κ) (Q : A → Type ν) where
  pub All-both : (xs : List A) → All P xs → All Q xs → All (λ x. P x × Q x) xs
  All-both [] h k = tt
  All-both (x ∷ xs) h k = ((h.0, k.0), All-both xs h.1 k.1)

  -- what holds of a list gives what holds of those that a filter keeps
  pub All-kept :
      (p : A → Bool) (xs : List A)
      → ((x : A) → P x → p x ≡ true → Q x)
      → All P xs
      → All Q (filter p xs)
  All-kept p [] f h = tt
  All-kept p (x ∷ xs) f h = elim (Bool-cases (p x)) [
    | inl kept ↦ rw kept (f x h.0 kept, All-kept p xs f h.1)
    | inr dropped ↦ rw dropped (All-kept p xs f h.1)
  ]

  -- what an UPDATE with a WHERE clause makes of the rows
  pub All-update_where :
      (p : A → Bool) (f : A → A) (xs : List A)
      → ((x : A) → P x → p x ≡ true → Q (f x))
      → ((x : A) → P x → p x ≡ false → Q x)
      → All P xs
      → All Q (update_where p f xs)
  All-update_where p f [] g k h = tt
  All-update_where p f (x ∷ xs) g k h = elim (Bool-cases (p x)) [
    | inl changed ↦ rw changed (g x h.0 changed, All-update_where p f xs g k h.1)
    | inr same ↦ rw same (k x h.0 same, All-update_where p f xs g k h.1)
  ]
