-- ===== src/Rebalance/Config.antt =====
-- The pool's settings: what an edit accepts, and the suggestion that the page offers.
use native.Mathlib.Nat.{div-add-mod'}
use ai_api.Base.{ℕ, zero, suc, ◌*◌, ◌/◌, ◌≤◌, ◌<◌, ◌≡◌, ◌↔◌, ◌⊎◌, true, arith}
use ai_api.Models.Time.{DateTime}
use ai_api.Rebalance.{update_pool_config}
use ai_api.Rebalance.Reads.{
  PoolConfig, PoolSuggestion, Db, suggest_pool_config, active_pool_member_count, recent_month_usage,
}

abbrev pub suggested : PoolSuggestion → PoolConfig
suggested s = record {
  total_tokens_per_month = s.suggested_total;
  floor_per_allocation = s.suggested_floor;
}

half_covers : (total n : ℕ) → total / (2 * suc n) * suc n * 2 ≤ total
half_covers total n = omega (arith, div-add-mod' total (2 * suc n))

-- the suggested floor is the larger of 1000 and what half the total gives to each
floors_fit : (n total : ℕ) → total / (2 * n) * n ≤ total
floors_fit zero total = omega arith
floors_fit (suc n) total = omega (arith, half_covers total n)

too_low : (n total : ℕ) → 1000 < total / (2 * n) → 1000 * n ≤ total
too_low n total h = grind (arith, floors_fit n total)

-- The endpoint accepts the settings that it suggested itself exactly when there is no member or the
-- suggested total is at least 1000 tokens for each.
pub suggestion_accepted :
    (settings : PoolConfig) (db : Db) (now : DateTime)
    → let s = suggest_pool_config db now in
      ((update_pool_config settings (suggested s) db).0 ≡ true)
      ↔ ((s.pool_members ≡ 0) ⊎ (1000 * s.pool_members ≤ s.suggested_total))
unfolding update_pool_config suggest_pool_config
suggestion_accepted settings db now =
    let n = active_pool_member_count db in
    let total = recent_month_usage db now * 2 in
    (
      (λ h. ground (arith, floors_fit n total, too_low n total)),
      (λ h. ground (arith, floors_fit n total)),
    )
