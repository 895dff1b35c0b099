-- ===== src/Rebalance/Atomic.antt =====
-- What a run of `apply_rebalance` of src/ai_api/services/quota_pool.py commits, and what it leaves alone.
use ai_api.Base.{
  ℕ, ◌≡◌, refl, sym, ◌∙◌, ◌⊎◌, inl, inr, true, not, filter, some, List, [], ◌∷◌, ◌++◌, map, arith,
  Bool-cases, ==_refl,
}
use ai_api.Models.{Allocation}
use ai_api.Models.Time.{DateTime}
use ai_api.Pool.{RebalanceResult, ok}
use ai_api.Rebalance.{Dialect, violates_unique, deduplicates, apply_rebalance}
use ai_api.Rebalance.Reads.{
  PoolConfig, Trigger, cron, admin_manual, RebalanceLog, Db, period_of, get_pool_config, in_pool,
}
use ai_api.Rebalance.Transaction.{effective_config, effective_config_lem}
use ai_api.Rebalance.Given.{given}
use ai_api.Rebalance.Outcomes.{Committed, LeftAlone, SameTables, with_config-Outcome}

SameTables-get_pool_config :
    (settings : PoolConfig) (db : Db) → SameTables db (get_pool_config settings db).1
unfolding get_pool_config
SameTables-get_pool_config settings db = ground arith

-- Every run ends in one of two ways. It has given each row of the pool the quota that the pure computation
-- gives it, whose results are one for each member of the pool, and has added one row to the log, of the month
-- before `now`, with these quotas, which the unique index of the dialect admitted; or it has raised or was
-- skipped, and has changed no allocation and no log row.
pub rebalance_atomic :
    (dialect : Dialect) (settings : PoolConfig) (trigger : Trigger) (now : DateTime) (db : Db)
    → Committed dialect
        (effective_config settings db)
        trigger
        now
        db
        (apply_rebalance dialect settings trigger now db)
      ⊎ LeftAlone db (apply_rebalance dialect settings trigger now db)
unfolding apply_rebalance
rebalance_atomic dialect settings trigger now db =
    let (cfg, seeded) = get_pool_config settings db in
    rw (← effective_config_lem settings db) (
      with_config-Outcome dialect cfg trigger now db seeded
        (SameTables-get_pool_config settings db))

violates-append :
    (dialect : Dialect) (logs : List RebalanceLog) (log : RebalanceLog) (period : ℕ × ℕ)
    (trigger : Trigger)
    → deduplicates dialect trigger ≡ true
    → log.period ≡ period
    → log.triggered_by ≡ trigger
    → violates_unique dialect (logs ++ log ∷ []) period trigger ≡ true
unfolding violates_unique
violates-append dialect [] log period cron d p t =
    ground (arith, ==_refl period.0, ==_refl period.1)
violates-append dialect [] log period admin_manual d p t =
    ground (arith, ==_refl period.0, ==_refl period.1)
violates-append dialect (l ∷ logs) log period trigger d p t =
    ground (arith, violates-append dialect logs log period trigger d p t)

-- After a run has committed for a month, a second run by the same trigger in that month changes no
-- allocation and no log row, where the dialect's index covers the trigger: the cron job on both, a
-- manual run on SQLite only.
pub second_run-LeftAlone :
    (dialect : Dialect) (settings : PoolConfig) (trigger : Trigger) (now later : DateTime) (db : Db)
    (log : RebalanceLog)
    → deduplicates dialect trigger ≡ true
    → (apply_rebalance dialect settings trigger now db).0 ≡ ok (some log)
    → period_of later ≡ period_of now
    → let after = (apply_rebalance dialect settings trigger now db).1 in
      LeftAlone after (apply_rebalance dialect settings trigger later after)
second_run-LeftAlone dialect settings trigger now later db log covered done month =
    let first = apply_rebalance dialect settings trigger now db in
    elim (rebalance_atomic dialect settings trigger now db) [
      | inr (_, _, none_added) ↦ absurd (none_added log done)
      | inl (row, _, _, _, _, _, logs, _, period, by, _) ↦
          elim (rebalance_atomic dialect settings trigger later first.1) [
            | inr same ↦ same
            | inl (_, _, _, _, _, _, _, _, _, _, free) ↦ cc (
              violates-append dialect db.rebalance_log row (period_of later) trigger covered
                  (period ∙ sym month) by,
              logs,
              free,
            )
          ]
    ]

pub outside_pool-given :
    (results : List RebalanceResult) (rows : List Allocation)
    → filter (λ a. not (in_pool a)) (map (given results) rows) ≡ filter (λ a. not (in_pool a)) rows
outside_pool-given results [] = refl
outside_pool-given results (a ∷ rows) = elim (Bool-cases (in_pool a)) [
  | inl pooled ↦ ground (arith, pooled, outside_pool-given results rows)
  | inr other ↦ ground (arith, other, outside_pool-given results rows)
]

-- No run changes a row outside the pool: service, locked and inactive allocations keep every column,
-- their quotas included.
pub rebalance_outside_pool :
    (dialect : Dialect) (settings : PoolConfig) (trigger : Trigger) (now : DateTime) (db : Db)
    → filter (λ a. not (in_pool a)) (apply_rebalance dialect settings trigger now db).1.allocations
      ≡ filter (λ a. not (in_pool a)) db.allocations
rebalance_outside_pool dialect settings trigger now db =
    elim (rebalance_atomic dialect settings trigger now db) [
      | inl (_, results, _, _, _, rows, _, _, _, _, _) ↦
          rw rows (outside_pool-given results db.allocations)
      | inr (rows, _, _) ↦ rw rows
    ]
