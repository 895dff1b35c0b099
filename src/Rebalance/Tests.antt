-- ===== src/Rebalance/Tests.antt =====
-- A database with two pool members and a service allocation, and runs on it.
use ai_api.Base.{
  ℕ, ◌*◌, ◌≤◌, ◌≡◌, ◌↔◌, ◌⊎◌, refl, Bool, true, false, not, none, some, [], ◌∷◌, arith, filter,
}
use ai_api.Base.Int.{pos, ◌+ℤ◌, ◌-ℤ◌}
use ai_api.Models.{Allocation, AllocationStatus, AllocationOrigin, CallOutcome}
use ai_api.Models.Time.{DateTime, at_or_before, before}
use ai_api.Pool.{
  ok, ratio, floor, max_index, max_from, spread, share, add_at, assemble, sum_quota,
  assert_conservation, usage_sum, cold_start, proportional, compute_rebalance,
}
use ai_api.Pool.TrueDivision.{int_true_div}
use ai_api.Rebalance.{
  Dialect, update_all, violates_unique, commit_log, finish, checked, with_pool, with_config,
  details_of, changed_count, leftover_target_of, quota_before, update_pool_config, apply_rebalance,
}
use ai_api.Rebalance.Reads.{
  PoolConfig, Trigger, RebalanceLog, Db, previous_month_range, period_of, get_pool_config, in_pool,
  quota_sum, order_by_id, pool_members, insert_by_id, suggest_pool_config, usage_of,
}
use ai_api.Rebalance.Transaction.{UniqueIds, active_quota, rebalance_conserves_database}
use ai_api.Rebalance.Atomic.{rebalance_atomic, second_run-LeftAlone, rebalance_outside_pool}
use ai_api.Rebalance.Outcomes.{Committed, LeftAlone}
use ai_api.Rebalance.Config.{suggested, suggestion_accepted}

abbrev january : DateTime
january = record { year = 2026; month = 1; rest = 5 }

abbrev december : DateTime
december = record { year = 2025; month = 12; rest = 7 }

abbrev row : ℕ → Bool → Allocation
row i service = record {
  id = i;
  member_id = 1;
  resource_model = [];
  status = AllocationStatus.active;
  created_at = 0;
  revoked_at = none;
  quota_tokens_per_month = some (pos 100);
  quota_cost_usd_per_month = none;
  is_service_allocation = service;
  quota_locked = false;
  origin = AllocationOrigin.admin;
}

abbrev db : Db
db = record {
  pool_config = none;
  allocations = row 1 false ∷ row 2 true ∷ row 3 false ∷ [];
  call_records =
      record {
        allocation_id = some 3;
        started_at = december;
        outcome = CallOutcome.success;
        total_tokens = some 9;
        cost_usd = none;
      }
      ∷ [];
  rebalance_log = [];
  audit_log = [];
}

abbrev settings : PoolConfig
settings = record { total_tokens_per_month = 1000; floor_per_allocation = 50 }

db-UniqueIds : UniqueIds db.allocations
db-UniqueIds i = ground arith

abbrev first_log : RebalanceLog
first_log = record {
  period = (2025, 12);
  triggered_by = Trigger.cron;
  started_at = january;
  T_before = 1000;
  T_after = 1000;
  scanned = 2;
  changed = 2;
  details =
      record { id = 1; before = pos 100; after = pos 50; usage = 0; reason = floor }
      ∷ record { id = 3; before = pos 100; after = pos 850; usage = 9; reason = ratio }
      ∷ [];
  reserved_total = pos 100;
  leftover_target = some 3;
}

first_run :
    (apply_rebalance Dialect.sqlite settings Trigger.cron january db).0 ≡ ok (some first_log)
unfolding apply_rebalance with_config with_pool checked finish commit_log get_pool_config
    pool_members order_by_id update_all violates_unique previous_month_range period_of quota_sum
    usage_of details_of changed_count leftover_target_of quota_before insert_by_id at_or_before
    before compute_rebalance max_index max_from spread share add_at assemble sum_quota
    assert_conservation usage_sum cold_start proportional int_true_div ◌+ℤ◌ ◌-ℤ◌
first_run = refl

rebalance_conserves_database_example :
    (active_quota (apply_rebalance Dialect.sqlite settings Trigger.cron january db).1 ≡ pos 1000)
    × (◌≡◌ {A = ℕ} 1000 1000)
rebalance_conserves_database_example =
    rebalance_conserves_database Dialect.sqlite settings Trigger.cron january db first_log
      db-UniqueIds first_run

second_run-LeftAlone_example :
    let after = (apply_rebalance Dialect.sqlite settings Trigger.cron january db).1 in
    LeftAlone after (apply_rebalance Dialect.sqlite settings Trigger.cron january after)
second_run-LeftAlone_example =
    second_run-LeftAlone Dialect.sqlite settings Trigger.cron january january db first_log refl
      first_run refl

rebalance_atomic_example :
    Committed Dialect.sqlite settings Trigger.cron january db
      (apply_rebalance Dialect.sqlite settings Trigger.cron january db)
    ⊎ LeftAlone db (apply_rebalance Dialect.sqlite settings Trigger.cron january db)
rebalance_atomic_example = rebalance_atomic Dialect.sqlite settings Trigger.cron january db

rebalance_outside_pool_example :
    filter
      (λ a. not (in_pool a))
      (apply_rebalance Dialect.sqlite settings Trigger.cron january db).1.allocations
    ≡ row 2 true ∷ []
rebalance_outside_pool_example =
    rebalance_outside_pool Dialect.sqlite settings Trigger.cron january db

suggestion_accepted_example :
    let s = suggest_pool_config db january in
    ((update_pool_config settings (suggested s) db).0 ≡ true)
    ↔ ((s.pool_members ≡ 0) ⊎ (1000 * s.pool_members ≤ s.suggested_total))
suggestion_accepted_example = suggestion_accepted settings db january
