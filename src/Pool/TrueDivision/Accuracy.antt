-- ===== src/Pool/TrueDivision/Accuracy.antt =====
-- How far the double of a quotient can lie above it.
use native.Mathlib.Nat.{div-add-mod', pow-suc}
use ai_api.Base.{
  ℕ, zero, suc, ◌+◌, ◌*◌, ◌/◌, ◌%◌, ◌^◌, ◌≤◌, ◌<◌, ◌≡◌, ap, ◌⊎◌, inl, inr, false, arith, ltb, leb,
  Bool-cases, leb→le, not_leb→lt,
}
use ai_api.Pool.TrueDivision.{two_52, two_53, round_half_even, scale_down, scale_up, int_true_div}

down-le : (n d : ℕ) → 2 * (n / d * d) ≤ 2 * n + d
down-le n d = omega (arith, div-add-mod' n d)

up-le : (n d : ℕ) → d ≤ 2 * (n % d) → 2 * ((n / d + 1) * d) ≤ 2 * n + d
up-le n d h = omega (arith, div-add-mod' n d)

rounding-le : (n d : ℕ) → 2 * (round_half_even n d * d) ≤ 2 * n + d
unfolding round_half_even
rounding-le n d = ground (arith, down-le n d, up-le n d)

scale_down-pos : (fuel a b unit : ℕ) → 0 < unit → 0 < scale_down fuel a b unit
unfolding scale_down
scale_down-pos zero a b unit h = h
scale_down-pos (suc fuel) a b unit h = ground (arith, scale_down-pos fuel a b (2 * unit))

-- The last doubling left the quotient at 2 ^ 52 or above.
scale_down-le :
    (fuel a b unit : ℕ) → two_52 * (b * unit) ≤ a → two_52 * (b * scale_down fuel a b unit) ≤ a
unfolding scale_down
scale_down-le zero a b unit h = h
scale_down-le (suc fuel) a b unit h = ground (arith, scale_down-le fuel a b (2 * unit))

scale_up-pos : (fuel a b unit : ℕ) → 0 < unit → 0 < scale_up fuel a b unit
unfolding scale_up
scale_up-pos zero a b unit h = h
scale_up-pos (suc fuel) a b unit h = ground (arith, scale_up-pos fuel a b (2 * unit))

pow_doubles : (n u : ℕ) → 2 ^ suc n * u ≡ 2 ^ n * (2 * u)
pow_doubles n u = rw (pow-suc 2 n) (omega arith)

scale_up-cases :
    (fuel a b unit : ℕ)
    → (two_52 * b ≤ a * scale_up fuel a b unit) ⊎ (scale_up fuel a b unit ≡ 2 ^ fuel * unit)
unfolding scale_up
scale_up-cases zero a b unit = ground arith
scale_up-cases (suc fuel) a b unit = elim (Bool-cases (ltb (a * unit) (two_52 * b))) [
  | inl more ↦ rw (more, scale_up, pow_doubles fuel unit) (scale_up-cases fuel a b (2 * unit))
  | inr enough ↦ rw (enough, scale_up) (inl (ground arith))
]

-- A quotient that was rounded at 53 bits: `m` of `unit`s, where the quotient has 2 ^ 52 or more.
relative-le :
    (m n d : ℕ) → 2 * (m * d) ≤ 2 * n + d → two_52 * d ≤ n → m * d * two_53 ≤ n * (two_53 + 1)
relative-le m n d h k = omega arith

cancel-le : (u x y : ℕ) → 0 < u → x * u ≤ y * u → x ≤ y
cancel-le u x y h k = grind arith

cancel-lt : (u x y : ℕ) → x * u < y * u → x < y
cancel-lt u x y k = grind arith

scaled_down-le :
    (m u a b : ℕ) → m * (b * u) * two_53 ≤ a * (two_53 + 1) → m * u * b * two_53 ≤ a * (two_53 + 1)
scaled_down-le m u a b h = omega arith

-- the integer part of a quotient that was scaled up
scaled_up-le :
    (m u a b : ℕ)
    → 0 < u
    → m * b * two_53 ≤ a * u * (two_53 + 1)
    → m / u * b * two_53 ≤ a * (two_53 + 1)
scaled_up-le m u a b h k =
    cancel-le u (m / u * b * two_53) (a * (two_53 + 1)) h
      (omega (arith, k, ap (λ (t : ℕ). t * b) (div-add-mod' m u)))

-- below 1/2 the integer part is 0
too_small : (m u a b : ℕ) → 2 * (m * b) ≤ 2 * (a * u) + b → a * u < two_52 * b → m / two_53 ≡ 0
too_small m u a b h k = let small : m < two_53 = cancel-lt b m two_53 (omega arith) in omega arith

small-le :
    (m u a b : ℕ)
    → u ≡ two_53
    → 2 * (m * b) ≤ 2 * (a * u) + b
    → a * u < two_52 * b
    → m / u * b * two_53 ≤ a * (two_53 + 1)
small-le m u a b e h k =
    let none_left : m / u ≡ 0 = rw e (too_small m u a b h k) in rw none_left (omega arith)

small_main :
    (a b : ℕ)
    → let u = scale_up 53 a b 1 in
      (two_52 * b ≤ a * u) ⊎ (u ≡ 2 ^ 53 * 1)
      → leb (two_52 * b) (a * u) ≡ false
      → round_half_even (a * u) b / u * b * two_53 ≤ a * (two_53 + 1)
small_main a b (inl enough) below = absurd (ground arith)
small_main a b (inr full) below =
    let u = scale_up 53 a b 1 in
    small-le (round_half_even (a * u) b) u a b full (rounding-le (a * u) b) (not_leb→lt _ _ below)

scaled_up_main :
    (a b : ℕ)
    → let u = scale_up 53 a b 1 in round_half_even (a * u) b / u * b * two_53 ≤ a * (two_53 + 1)
scaled_up_main a b =
    let u = scale_up 53 a b 1 in
    let m = round_half_even (a * u) b in
    elim (Bool-cases (leb (two_52 * b) (a * u))) [
      | inl enough ↦
          scaled_up-le m u a b (scale_up-pos 53 a b 1 (omega arith))
            (relative-le m (a * u) b (rounding-le (a * u) b) (leb→le _ _ enough))
      | inr below ↦ small_main a b (scale_up-cases 53 a b 1) below
    ]

-- The truncated true division of a by a positive b is at most the quotient a / b times 1 + 2^-53.
pub int_true_div-le : (a b : ℕ) → 0 < b → int_true_div a b * b * two_53 ≤ a * (two_53 + 1)
unfolding int_true_div
int_true_div-le a b h = elim (Bool-cases (leb (two_53 * b) a)) [
  | inl large ↦ rw large (
      let u = scale_down a a b 1 in
      scaled_down-le (round_half_even a (b * u)) u a b (
        relative-le (round_half_even a (b * u)) a (b * u) (rounding-le a (b * u))
          (scale_down-le a a b 1 (ground arith))))
  | inr small ↦ rw small (scaled_up_main a b)
]
