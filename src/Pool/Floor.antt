-- ===== src/Pool/Floor.antt =====
-- The floor of a rebalanced pool, under shares that are rounded by a division of doubles and a leftover that
-- corrects them and can be negative.
use native.Mathlib.Nat.{div-add-mod', mod-lt}
use ai_api.Base.{
  ℕ, zero, suc, ◌+◌, ◌-◌, ◌*◌, ◌/◌, ◌≤◌, ◌<◌, ◌≡◌, refl, ◌∙◌, inl, inr, List, [], ◌∷◌, map, arith,
  ◌==◌, length, sum_by, All, Bool-cases, not_ltb→le,
}
use ai_api.Base.Int.{ℤ, pos, pos_part, neg_part, ◌-ℤ◌, ◌≤ℤ◌, ltb_ℤ, int_laws}
use ai_api.Pool.{
  PoolMember, RebalanceResult, ok, max_index, usage_less, spread, share, add_at, assemble,
  usage_sum, cold_start, proportional, compute_rebalance,
}
use ai_api.Pool.Conservation.{Fits, rebalanced, empty_pool, exhausts, compute_rebalance_lem}
use ai_api.Pool.TrueDivision.{two_53}
use ai_api.Pool.Shares.{
  usage, without, shares-le, value_at, sum-without, sum-map, value_at-map, cancel-lt, others-le,
  max_usage-le, sum-le-max_usage, value_at-max_from,
}

-- The member that takes the leftover has at least the average usage.
usage-le-target :
    (m : PoolMember) (ms : List PoolMember)
    → sum_by usage (m ∷ ms)
      ≤ length (m ∷ ms) * value_at usage (max_index usage_less (m ∷ ms)) (m ∷ ms)
unfolding max_index
usage-le-target m ms =
    rw (value_at-max_from 0 m (m ∷ []) ms refl)
      (omega (arith, max_usage-le m ms, sum-le-max_usage m ms))

add_at-nonneg :
    (target : ℕ) (leftover : ℤ) (shares : List ℕ)
    → neg_part leftover ≤ value_at (λ s. s) target shares + pos_part leftover
    → All (λ s. pos 0 ≤ℤ s) (add_at target leftover (map pos shares))
unfolding add_at
add_at-nonneg target leftover [] h = tt
add_at-nonneg zero leftover (s ∷ shares) h = (omega (int_laws, h), all_pos shares)
  where
    all_pos : (xs : List ℕ) → All (λ s. pos 0 ≤ℤ s) (map pos xs)
    all_pos [] = tt
    all_pos (x ∷ xs) = (omega arith, all_pos xs)
add_at-nonneg (suc target) leftover (s ∷ shares) h =
    (omega arith, add_at-nonneg target leftover shares h)

assemble-All :
    (f : ℕ) (ms : List PoolMember) (shares : List ℤ)
    → All (λ s. pos 0 ≤ℤ s) shares
    → All (λ r. pos f ≤ℤ r.new_quota) (assemble f ms shares)
unfolding assemble
assemble-All f [] shares h = tt
assemble-All f (m ∷ ms) [] h = tt
assemble-All f (m ∷ ms) (s ∷ shares) h = (omega (int_laws, h.0), assemble-All f ms shares h.1)

spread-All :
    (f each leftover target i : ℕ) (ms : List PoolMember)
    → f ≤ each
    → All (λ r. pos f ≤ℤ r.new_quota) (spread each leftover target i ms)
unfolding spread
spread-All f each leftover target i [] h = tt
spread-All f each leftover target i (m ∷ ms) h =
    (ground arith, spread-All f each leftover target (suc i) ms h)

-- The leftover takes no more than the target's own share.
leftover_covered :
    (bonus total : ℕ) (m : PoolMember) (ms : List PoolMember)
    → length (m ∷ ms) ≤ two_53
    → total ≡ sum_by usage (m ∷ ms)
    → 0 < total
    → let shares = map (share bonus total) (m ∷ ms) in
      let leftover = pos bonus -ℤ pos (sum_by (λ s. s) shares) in
      neg_part leftover
      ≤ value_at (λ s. s) (max_index usage_less (m ∷ ms)) shares + pos_part leftover
leftover_covered bonus total m ms small e h =
    let pool = m ∷ ms in
    let target = max_index usage_less pool in
    let rest = without target pool in
    omega (
      int_laws,
      sum-map (share bonus total) pool,
      value_at-map (share bonus total) target pool,
      sum-without (share bonus total) target pool,
      others-le bonus total (sum_by usage rest) (value_at usage target pool) (length pool)
          (sum_by (share bonus total) rest) (shares-le bonus total rest h)
          (e ∙ sum-without usage target pool) (rw e (usage-le-target m ms)) small h,
    )

proportional-All :
    (distributable f : ℕ) (m : PoolMember) (ms : List PoolMember)
    → length (m ∷ ms) ≤ two_53
    → 0 < usage_sum (m ∷ ms)
    → All (λ r. pos f ≤ℤ r.new_quota) (proportional distributable f (m ∷ ms))
unfolding proportional usage_sum
proportional-All d f m ms small used =
    let pool = m ∷ ms in
    let bonus_pool = d - f * length pool in
    let total = sum_by usage pool in
    assemble-All f pool _ (
      add_at-nonneg (max_index usage_less pool) _ (map (share bonus_pool total) pool)
        (leftover_covered bonus_pool total m ms small refl used))

floor-le-div : (d f n : ℕ) → f * suc n ≤ d → f ≤ d / suc n
floor-le-div d f n h =
    cancel-lt f (d / suc n) (suc n)
      (omega (arith, h, div-add-mod' d (suc n), mod-lt d {m = suc n} (omega arith)))

cold_start-All :
    (distributable f : ℕ) (m : PoolMember) (ms : List PoolMember)
    → f * length (m ∷ ms) ≤ distributable
    → All (λ r. pos f ≤ℤ r.new_quota) (cold_start distributable (m ∷ ms))
unfolding cold_start
cold_start-All d f m ms h =
    spread-All f (d / length (m ∷ ms)) _ _ 0 (m ∷ ms) (floor-le-div d f (length ms) h)

rebalanced-All :
    (T f : ℕ) (r : ℤ) (m : PoolMember) (ms : List PoolMember)
    → length (m ∷ ms) ≤ two_53
    → Fits T f r (m ∷ ms)
    → All (λ x. pos f ≤ℤ x.new_quota) (rebalanced T f r (m ∷ ms))
rebalanced-All T f r m ms small fits =
    let d = pos_part (pos T -ℤ r) in
    elim (Bool-cases (usage_sum (m ∷ ms) == 0)) [
      | inl idle ↦ rw idle (cold_start-All d f m ms (omega arith))
      | inr used ↦ rw used (proportional-All d f m ms small (ground arith))
    ]

-- When a rebalance of at most 2^53 members returns, every new quota is at least the floor.
pub rebalance_keeps_floor :
    (T f : ℕ) (reserved_total : ℤ) (pool : List PoolMember) (results : List RebalanceResult)
    → length pool ≤ two_53
    → compute_rebalance T f reserved_total pool ≡ ok results
    → All (λ r. pos f ≤ℤ r.new_quota) results
rebalance_keeps_floor T f r [] results small h = rw none_left tt
  where
    none_left : results ≡ []
    none_left = cc (empty_pool T f r, h)
rebalance_keeps_floor T f r (m ∷ ms) results small h =
    elim (Bool-cases (ltb_ℤ (pos T -ℤ r) (pos (f * length (m ∷ ms))))) [
      | inl short ↦ cc (exhausts T f r m ms short)
      | inr enough ↦
          let fits : Fits T f r (m ∷ ms) = not_ltb→le _ _ enough in
          let made : results ≡ rebalanced T f r (m ∷ ms) =
            cc (compute_rebalance_lem T f r m ms fits) in
          rw made (rebalanced-All T f r m ms small fits)
    ]
