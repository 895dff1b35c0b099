-- ===== src/Pool/TrueDivision.antt =====
-- `int(a / b)` on non-negative ints: Python's true division rounds the exact quotient to the nearest
-- double (53 bits, ties to even), and `int` cuts the fraction off.
pub mod Accuracy
use ai_api.Base.{
  ℕ, zero, suc, ◌+◌, ◌*◌, ◌/◌, ◌%◌, ◌^◌, ◌≡◌, refl, true, false, ltb, leb, ◌==◌, if◌then◌else◌,
}

abbrev pub two_52 : ℕ
two_52 = 2 ^ 52

abbrev pub two_53 : ℕ
two_53 = 2 ^ 53

-- n / d to the nearest integer, ties to the even one
round_half_even : ℕ → ℕ → ℕ
round_half_even n d =
    let q = n / d in
    let r = n % d in
    if ltb (2 * r) d then q else if ltb d (2 * r) then q + 1 else if q % 2 == 0 then q else q + 1

-- the power of two that brings a / (b * unit) below 2 ^ 53; `fuel` doublings at most
scale_down : ℕ → ℕ → ℕ → ℕ → ℕ
scale_down zero a b unit = unit
scale_down (suc fuel) a b unit = elim (leb (two_53 * (b * unit)) a) [
  | true ↦ scale_down fuel a b (2 * unit)
  | false ↦ unit
]

-- the power of two that brings a * unit / b up to 2 ^ 52; `fuel` doublings at most
scale_up : ℕ → ℕ → ℕ → ℕ → ℕ
scale_up zero a b unit = unit
scale_up (suc fuel) a b unit = elim (ltb (a * unit) (two_52 * b)) [
  | true ↦ scale_up fuel a b (2 * unit)
  | false ↦ unit
]

-- Below 1/2 the double is at most 1/2, so that 53 doublings are enough for its integer part.
unfoldable pub int_true_div : ℕ → ℕ → ℕ
unfolding round_half_even scale_down scale_up
int_true_div a b =
    if leb (two_53 * b) a
    then (let unit = scale_down a a b 1 in round_half_even a (b * unit) * unit)
    else (let unit = scale_up 53 a b 1 in round_half_even (a * unit) b / unit)

exact : int_true_div 7000 7 ≡ 1000
unfolding int_true_div
exact = refl

cut_off : int_true_div 20 3 ≡ 6
unfolding int_true_div
cut_off = refl

-- 9007199254740993 is no double: it rounds to the even neighbour.
to_even : int_true_div 9007199254740993 1 ≡ 9007199254740992
unfolding int_true_div
to_even = refl

-- Just below an integer the quotient rounds up to it, and nothing is cut off.
rounds_up : int_true_div 99999999999999999 100000000 ≡ 1000000000
unfolding int_true_div
rounds_up = refl
