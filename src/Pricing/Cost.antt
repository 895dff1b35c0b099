-- ===== src/Pricing/Cost.antt =====
-- The bounds of the cost of a call, by how much of its prompt is cached.
use native.Mathlib.Nat.{mul-le-mul_left}
use ai_api.Base.{
  or_zero, ℕ, ◌+◌, ◌-◌, ◌*◌, ◌≤◌, ◌≡◌, inl, inr, false, Option, some, arith, ltb, Bool-cases,
  not_ltb→le,
}
use ai_api.Pricing.{Price, cached_rate, token_cost, calculate_cost}

-- a price with the cached part of the prompt at its own rate
split_le : (f c r i : ℕ) → r ≤ i → f * i + c * r ≤ (f + c) * i
split_le f c r i h = omega (arith, mul-le-mul_left c h)

split_ge : (f c r i : ℕ) → r ≤ i → (f + c) * r ≤ f * i + c * r
split_ge f c r i h = omega (arith, mul-le-mul_left f h)

part_sum : (p c : ℕ) → ltb p c ≡ false → p - c + c ≡ p
part_sum p c h = omega (arith, not_ltb→le p c h)

-- The cost of a call, in thousandths of the unit of the prices. With a cached rate that is at most the input
-- rate, whatever number of cached tokens is reported, even one above the prompt's, the cost is at most that
-- of the whole prompt at the input rate, and at least that of the whole prompt at the cached rate.
pub calculate_cost-bounds :
    (price : Price) (prompt completion cached : Option ℕ)
    → cached_rate price ≤ price.input_per_1k
    → (cost : ℕ) × (calculate_cost (some price) prompt completion cached ≡ some cost)
      × (cost ≤ or_zero prompt * price.input_per_1k + or_zero completion * price.output_per_1k)
      × (or_zero prompt * cached_rate price + or_zero completion * price.output_per_1k ≤ cost)
unfolding calculate_cost token_cost
calculate_cost-bounds price prompt completion cached h =
    elim (Bool-cases (ltb (or_zero prompt) (or_zero cached))) [
      | inl above ↦ (
        token_cost price 0 (or_zero prompt) (or_zero completion),
        ground (arith, above),
        omega (arith, split_le 0 (or_zero prompt) (cached_rate price) price.input_per_1k h),
        omega (arith, split_ge 0 (or_zero prompt) (cached_rate price) price.input_per_1k h),
      )
      | inr within ↦
          let parts = part_sum (or_zero prompt) (or_zero cached) within in
          (
            token_cost price (or_zero prompt - or_zero cached) (or_zero cached)
                (or_zero completion),
            ground (arith, within),
            omega (
              arith,
              rw parts at (
                  split_le (or_zero prompt - or_zero cached) (or_zero cached) (cached_rate price)
                    price.input_per_1k h),
            ),
            omega (
              arith,
              rw parts at (
                  split_ge (or_zero prompt - or_zero cached) (or_zero cached) (cached_rate price)
                    price.input_per_1k h),
            ),
          )
    ]
