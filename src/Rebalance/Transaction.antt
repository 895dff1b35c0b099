-- ===== src/Rebalance/Transaction.antt =====
-- The transaction of `apply_rebalance`: conservation in the database, what a run leaves alone, and
-- the runs that change nothing.
use mathlib.Core.List.{map-map}
use ai_api.Base.{
  ℕ, ◌≤◌, ◌≡◌, refl, ap, ◌∙◌, inl, inr, Option, none, some, List, [], ◌∷◌, map, arith, ◌==◌, filter,
  Bool-cases,
}
use ai_api.Base.Int.{ℤ, pos, ◌+ℤ◌}
use ai_api.Models.{Allocation, is_active}
use ai_api.Models.Time.{DateTime}
use ai_api.Pool.{
  PoolMember, RebalanceResult, Result, ok, err, exhausted_by_reserved, sum_quota, compute_rebalance,
}
use ai_api.Pool.Conservation.{rebalance_ok, assert_conservation-cases}
use ai_api.Rebalance.{
  Dialect, update_all, write_audit, commit_log, finish, checked, with_pool, with_config,
  apply_rebalance,
}
use ai_api.Rebalance.Reads.{
  PoolConfig, Trigger, RebalanceLog, Db, previous_month_range, get_pool_config, in_pool,
  is_reserved, quota_sum, order_by_id, pool_members,
}
use ai_api.Rebalance.Sums.{
  count, occurrences, quota_sum-update_all, reserved-update_all, active_sum, count-order_by_id,
}

-- `id` is the primary key.
abbrev pub UniqueIds : List Allocation → Type 0
UniqueIds rows = (i : ℕ) → count i (map (λ a. a.id) rows) ≤ 1

occurrences-le :
    (i : ℕ) (rows : List Allocation) → occurrences i rows ≤ count i (map (λ a. a.id) rows)
occurrences-le i [] = omega arith
occurrences-le i (a ∷ rows) = ground (arith, occurrences-le i rows)

-- the quotas of the active allocations
abbrev pub active_quota : Db → ℤ
active_quota db = quota_sum (λ a. is_active a.status) db.allocations

updated-total :
    (rows : List Allocation) (results : List RebalanceResult) (total : ℕ)
    → UniqueIds rows
    → map (λ r. r.allocation_id) results ≡ map (λ a. a.id) (order_by_id (filter in_pool rows))
    → sum_quota results +ℤ quota_sum is_reserved rows ≡ pos total
    → quota_sum (λ a. is_active a.status) (update_all results rows) ≡ pos total
updated-total rows results total unique ids conserved =
    active_sum (update_all results rows)
    ∙ ap (λ (t : ℤ). t +ℤ quota_sum is_reserved (update_all results rows))
        (quota_sum-update_all results rows (λ i. ap (count i) ids ∙ count-order_by_id i rows)
          (λ i. omega (arith, occurrences-le i rows, unique i)))
    ∙ ap (λ (t : ℤ). sum_quota results +ℤ t) (reserved-update_all results rows)
    ∙ conserved

-- a run that ended at `r` has made the active quotas add up to `total`
abbrev Conserved : ℕ → Result (Option RebalanceLog) × Db → Type 0
Conserved total r =
    (log : RebalanceLog)
    → r.0 ≡ ok (some log)
    → (active_quota r.1 ≡ pos total) × (log.T_after ≡ total)

finish-Conserved :
    (dialect : Dialect) (trigger : Trigger) (now : DateTime) (start : Db) (total : ℕ) (r : ℤ)
    (pool : List PoolMember) (results : List RebalanceResult) (db : Db)
    → quota_sum (λ a. is_active a.status) (update_all results db.allocations) ≡ pos total
    → Conserved total (finish dialect trigger now start total r pool results db)
unfolding finish commit_log write_audit
finish-Conserved dialect trigger now start total r pool results db h log e = ground (arith, h)

with_pool-Conserved :
    (dialect : Dialect) (trigger : Trigger) (now : DateTime) (start : Db) (cfg : PoolConfig)
    (pool : List PoolMember) (db : Db)
    → UniqueIds db.allocations
    → map (λ m. m.allocation_id) pool
      ≡ map (λ a. a.id) (order_by_id (filter in_pool db.allocations))
    → Conserved cfg.total_tokens_per_month (with_pool dialect trigger now start cfg pool db)
unfolding with_pool checked
with_pool-Conserved dialect trigger now start cfg [] db unique ids = λ log e. cc
with_pool-Conserved dialect trigger now start cfg (m ∷ ms) db unique ids = checked-Conserved _ refl
  where
    reserved_total : ℤ
    reserved_total = quota_sum is_reserved db.allocations

    checked-Conserved :
        (c : Result (List RebalanceResult))
        → compute_rebalance cfg.total_tokens_per_month cfg.floor_per_allocation reserved_total
            (m ∷ ms)
          ≡ c
        → Conserved cfg.total_tokens_per_month (
            checked dialect trigger now start cfg.total_tokens_per_month reserved_total
              (m ∷ ms)
              db
              c)
    checked-Conserved (ok results) e =
        let total = cfg.total_tokens_per_month in
        let (conserved, same) =
          rebalance_ok total cfg.floor_per_allocation reserved_total m ms results e in
        elim (assert_conservation-cases results reserved_total total) [
          | inl passed ↦
              rw (passed, checked)
                (finish-Conserved dialect trigger now start total reserved_total (m ∷ ms) results db
                  (updated-total db.allocations results total unique (same ∙ ids) conserved))
          | inr failed ↦ rw (failed, checked) (λ log h. cc)
        ]
    checked-Conserved (err exhausted_by_reserved) e = λ log h. cc
    checked-Conserved (err _) e = λ log h. cc

pool_ids :
    (db : Db) (since until : DateTime)
    → map (λ m. m.allocation_id) (pool_members db since until)
      ≡ map (λ a. a.id) (order_by_id (filter in_pool db.allocations))
unfolding pool_members
pool_ids db since until = map-map _ _ (order_by_id (filter in_pool db.allocations))

-- the settings that a run reads: the stored row, or the defaults that are stored at the first read
abbrev pub effective_config : PoolConfig → Db → PoolConfig
effective_config settings db = elim db.pool_config [ none ↦ settings | some cfg ↦ cfg ]

pub effective_config_lem :
    (settings : PoolConfig) (db : Db)
    → (get_pool_config settings db).0 ≡ effective_config settings db
unfolding get_pool_config
effective_config_lem settings db = ground arith

allocations-get_pool_config :
    (settings : PoolConfig) (db : Db) → (get_pool_config settings db).1.allocations ≡ db.allocations
unfolding get_pool_config
allocations-get_pool_config settings db = ground arith

with_config-Conserved :
    (dialect : Dialect) (trigger : Trigger) (now : DateTime) (start : Db) (cfg : PoolConfig)
    (db : Db)
    → UniqueIds db.allocations
    → Conserved cfg.total_tokens_per_month (with_config dialect trigger now start cfg db)
unfolding with_config
with_config-Conserved dialect trigger now start cfg db unique =
    let (since, until) = previous_month_range now in
    elim (Bool-cases (cfg.total_tokens_per_month == 0)) [
      | inl disabled ↦ rw disabled (λ log h. cc)
      | inr enabled ↦ rw enabled (
          with_pool-Conserved dialect trigger now start cfg (pool_members db since until) db unique
            (pool_ids db since until))
    ]

-- After a run that was not skipped, the quotas of all active allocations, reserved ones included,
-- add up to the pool's total, and the log says so.
pub rebalance_conserves_database :
    (dialect : Dialect) (settings : PoolConfig) (trigger : Trigger) (now : DateTime) (db : Db)
    (log : RebalanceLog)
    → UniqueIds db.allocations
    → (apply_rebalance dialect settings trigger now db).0 ≡ ok (some log)
    → let total = (effective_config settings db).total_tokens_per_month in
      (active_quota (apply_rebalance dialect settings trigger now db).1 ≡ pos total)
      × (log.T_after ≡ total)
unfolding apply_rebalance
rebalance_conserves_database dialect settings trigger now db log unique h =
    let (cfg, seeded) = get_pool_config settings db in
    rw (← effective_config_lem settings db) (
      with_config-Conserved dialect trigger now db cfg seeded
        (λ i. rw allocations-get_pool_config (unique i)) log h)
