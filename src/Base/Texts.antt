-- ===== src/Base/Texts.antt =====
-- Texts as lists of characters: equality, the split at the first `/`, lower case for ASCII.
use Prim.Native.Nat.{ℕ, ◌+◌}
use mathlib.Core.Path.{◌≡◌, refl}
use mathlib.Core.Bool.{Bool, true, false, ◌&&◌, ◌||◌}
use mathlib.Core.List.{List, [], ◌∷◌, map}
use native.Mathlib.Omega.{arith}
use ai_api.Base.Tests.{leb, ◌==◌, if◌then◌else◌}

unfoldable pub text_eq : List ℕ → List ℕ → Bool
text_eq [] [] = true
text_eq (c ∷ s) (d ∷ t) = c == d && text_eq s t
text_eq _ _ = false

pub text_eq_sound : (s t : List ℕ) → text_eq s t ≡ true → s ≡ t
unfolding text_eq
text_eq_sound [] [] h = refl
text_eq_sound [] (d ∷ t) h = cc
text_eq_sound (c ∷ s) [] h = cc
text_eq_sound (c ∷ s) (d ∷ t) h = ground (arith, text_eq_sound s t)

pub text_eq_refl : (s : List ℕ) → text_eq s s ≡ true
unfolding text_eq
text_eq_refl [] = refl
text_eq_refl (c ∷ s) = ground (arith, text_eq_refl s)

-- `"/" in s`
unfoldable pub has_slash : List ℕ → Bool
has_slash [] = false
has_slash (c ∷ s) = c == b'/' || has_slash s

-- what stands behind the first slash
unfoldable pub after_slash : List ℕ → List ℕ
after_slash [] = []
after_slash (c ∷ s) = if c == b'/' then s else after_slash s

-- what stands before it
unfoldable pub before_slash : List ℕ → List ℕ
before_slash [] = []
before_slash (c ∷ s) = if c == b'/' then [] else c ∷ before_slash s

-- `s.split("/", 1)[-1]`
unfoldable pub strip_provider : List ℕ → List ℕ
unfolding has_slash after_slash
strip_provider s = if has_slash s then after_slash s else s

-- `s.lower()`
unfoldable pub lower : List ℕ → List ℕ
lower = map (λ c. if leb b'A' c && leb c b'Z' then c + 32 else c)
