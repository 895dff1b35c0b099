-- ===== src/Base/Results.antt =====
-- The result of a call that may raise.
use mathlib.Core.Path.{◌≡◌, refl}
use mathlib.Core.Logic.{◌⊎◌, inl, inr}

pub data Try {ℓ κ} (E : Type ℓ) (A : Type κ) : Type (ℓ ⊔ κ) where
  ok : A → Try E A
  raise : E → Try E A

pub Try-cases {ℓ κ} :
    {E : Type ℓ} {A : Type κ} (r : Try E A) → ((a : A) × (r ≡ ok a)) ⊎ ((e : E) × (r ≡ raise e))
Try-cases (ok a) = inl (a, refl)
Try-cases (raise e) = inr (e, refl)
