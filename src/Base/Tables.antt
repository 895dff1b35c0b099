-- ===== src/Base/Tables.antt =====
-- Tables as lists of rows: a row by its primary key, an UPDATE by it.
use mathlib.Core.Path.{◌≡◌, refl}
use mathlib.Core.Logic.{◌≢◌}
use Prim.Native.Nat.{ℕ}
use mathlib.Core.List.{List, [], ◌∷◌, ◌++◌, map}
use mathlib.Core.Option
use mathlib.Core.Option.{Option, none, some}
use native.Mathlib.Omega.{arith}
use ai_api.Base.Tests.{◌==◌, if◌then◌else◌}

module _ {ℓ} {A : Type ℓ} (key : A → ℕ) where
  -- `session.get`
  abbrev pub get : ℕ → List A → Option A
  get k [] = none
  get k (x ∷ xs) = if key x == k then some x else get k xs

  -- an UPDATE of the row with a key
  abbrev pub modify : ℕ → (A → A) → List A → List A
  modify k f [] = []
  modify k f (x ∷ xs) = (if key x == k then f x else x) ∷ modify k f xs

  pub get-modify_self :
      (k : ℕ) (f : A → A) (rows : List A)
      → ((x : A) → key (f x) ≡ key x)
      → get k (modify k f rows) ≡ Option.map f (get k rows)
  get-modify_self k f [] h = refl
  get-modify_self k f (x ∷ xs) h = ground (arith, h x, get-modify_self k f xs h)

  pub get-modify_ne :
      (k j : ℕ) (f : A → A) (rows : List A)
      → ((x : A) → key (f x) ≡ key x)
      → k ≢ j
      → get j (modify k f rows) ≡ get j rows
  get-modify_ne k j f [] h ne = refl
  get-modify_ne k j f (x ∷ xs) h ne = ground (arith, h x, get-modify_ne k j f xs h ne)

  pub keys-modify :
      (k : ℕ) (f : A → A) (rows : List A)
      → ((x : A) → key (f x) ≡ key x)
      → map key (modify k f rows) ≡ map key rows
  keys-modify k f [] h = refl
  keys-modify k f (x ∷ xs) h = ground (arith, h x, keys-modify k f xs h)

  pub key-get : (k : ℕ) (rows : List A) (x : A) → get k rows ≡ some x → key x ≡ k
  key-get k [] x h = cc
  key-get k (y ∷ ys) x h = ground (arith, key-get k ys x)

  -- a row is appended with a key that no row has
  pub get-append_new :
      (k : ℕ) (rows : List A) (x : A)
      → get k rows ≡ none
      → key x ≡ k
      → get k (rows ++ x ∷ []) ≡ some x
  get-append_new k [] x h e = ground arith
  get-append_new k (y ∷ ys) x h e = ground (arith, get-append_new k ys x)

  pub get-append_ne :
      (k : ℕ) (rows : List A) (x : A) → key x ≢ k → get k (rows ++ x ∷ []) ≡ get k rows
  get-append_ne k [] x h = ground arith
  get-append_ne k (y ∷ ys) x h = ground (arith, get-append_ne k ys x h)

  pub modify-modify :
      (k : ℕ) (f g : A → A) (rows : List A)
      → ((x : A) → key (f x) ≡ key x)
      → modify k g (modify k f rows) ≡ modify k (λ x. g (f x)) rows
  modify-modify k f g [] h = refl
  modify-modify k f g (x ∷ xs) h = ground (arith, h x, modify-modify k f g xs h)

  pub get-append_found :
      (k : ℕ) (rows more : List A) (x : A) → get k rows ≡ some x → get k (rows ++ more) ≡ some x
  get-append_found k [] more x h = cc
  get-append_found k (y ∷ ys) more x h = ground (arith, get-append_found k ys more x)

  pub modify-missing :
      (k : ℕ) (f : A → A) (rows : List A) → get k rows ≡ none → modify k f rows ≡ rows
  modify-missing k f [] h = refl
  modify-missing k f (x ∷ xs) h = ground (arith, modify-missing k f xs)
