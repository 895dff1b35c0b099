-- ===== src/Pool/Tests.antt =====
-- Rebalances at concrete inputs.
use ai_api.Base.{◌*◌, ◌≡◌, ◌≢◌, ◌↔◌, refl, List, [], ◌∷◌, map, arith, length, All}
use ai_api.Base.Int.{pos, ◌+ℤ◌, ◌-ℤ◌, ◌≤ℤ◌}
use ai_api.Pool.{
  PoolMember, PoolError, RebalanceResult, Result, ok, err, exhausted_by_reserved, ratio, floor,
  assert_conservation, compute_rebalance, max_index, share, add_at, assemble, sum_quota, usage_sum,
  proportional,
}
use ai_api.Pool.Conservation.{rebalance_conserves, rebalance_errors}
use ai_api.Pool.Floor.{rebalance_keeps_floor}
use ai_api.Pool.TrueDivision.{int_true_div}

abbrev two_members : List PoolMember
two_members =
    record { allocation_id = 1; usage_last_month = 20 }
    ∷ record { allocation_id = 2; usage_last_month = 10 }
    ∷ record { allocation_id = 3; usage_last_month = 0 }
    ∷ []

compute_two :
    compute_rebalance 1000 50 (pos 100) two_members
    ≡ ok (
        record { allocation_id = 1; new_quota = pos 550; reason = ratio }
        ∷ record { allocation_id = 2; new_quota = pos 300; reason = ratio }
        ∷ record { allocation_id = 3; new_quota = pos 50; reason = floor }
        ∷ [])
unfolding compute_rebalance max_index share add_at assemble sum_quota usage_sum proportional
    assert_conservation int_true_div ◌+ℤ◌ ◌-ℤ◌
compute_two = refl

abbrev pool_of : List PoolMember → Result (List RebalanceResult)
pool_of = compute_rebalance 1000 50 (pos 100)

rebalance_conserves_example :
    (results : List RebalanceResult) × (pool_of two_members ≡ ok results)
    × (sum_quota results +ℤ pos 100 ≡ pos 1000)
    × (map (λ r. r.allocation_id) results ≡ map (λ p. p.allocation_id) two_members)
unfolding ◌-ℤ◌
rebalance_conserves_example =
    rebalance_conserves 1000 50 (pos 100) (record { allocation_id = 1; usage_last_month = 20 })
      (record { allocation_id = 2; usage_last_month = 10 }
        ∷ record { allocation_id = 3; usage_last_month = 0 }
        ∷ [])
      (omega arith)

rebalance_errors_example :
    (compute_rebalance 200 50 (pos 100) two_members ≡ err exhausted_by_reserved) ↔ (
      (◌≡◌ {A = PoolError} exhausted_by_reserved exhausted_by_reserved)
      × (two_members ≢ [])
      × ¬ (pos (50 * length two_members) ≤ℤ pos 200 -ℤ pos 100))
rebalance_errors_example = rebalance_errors 200 50 (pos 100) two_members exhausted_by_reserved

rebalance_keeps_floor_example :
    All {A = RebalanceResult}
      (λ r. pos 50 ≤ℤ r.new_quota)
      (record { allocation_id = 1; new_quota = pos 550; reason = ratio }
        ∷ record { allocation_id = 2; new_quota = pos 300; reason = ratio }
        ∷ record { allocation_id = 3; new_quota = pos 50; reason = floor }
        ∷ [])
rebalance_keeps_floor_example =
    rebalance_keeps_floor 1000 50 (pos 100) two_members _ (omega arith) compute_two
