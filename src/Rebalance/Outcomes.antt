-- ===== src/Rebalance/Outcomes.antt =====
-- -- How a run of `apply_rebalance` of src/ai_api/services/quota_pool.py ends, branch by branch.
use ai_api.Base.{
  ℕ, ◌≡◌, ◌≢◌, refl, sym, ap, ◌∙◌, ◌⊎◌, inl, inr, false, Option, some, List, [], ◌∷◌, ◌++◌, map,
  ◌==◌, Bool-cases,
}
use ai_api.Base.Int.{ℤ}
use ai_api.Models.Time.{DateTime}
use ai_api.Pool.{
  PoolMember, RebalanceResult, Result, ok, err, exhausted_by_reserved, compute_rebalance,
}
use ai_api.Pool.Conservation.{rebalance_ok, assert_conservation-cases}
use ai_api.Rebalance.{
  Dialect, update_all, violates_unique, write_audit, commit_log, finish, checked, with_pool,
  with_config,
}
use ai_api.Rebalance.Reads.{
  PoolConfig, Trigger, RebalanceLog, Db, period_of, is_reserved, quota_sum, pool_members,
  previous_month_range,
}
use ai_api.Rebalance.Given.{given, update_all-given, noted, assigned, details-new_quota}
use ai_api.Base.{
  ℕ, ◌≡◌, ◌≢◌, refl, sym, ap, ◌∙◌, ◌⊎◌, inl, inr, false, Option, some, List, [], ◌∷◌, ◌++◌, map,
  ◌==◌, Bool-cases,
}
use ai_api.Base.Int.{ℤ}
use ai_api.Models.Time.{DateTime}
use ai_api.Pool.{
  PoolMember, RebalanceResult, Result, ok, err, exhausted_by_reserved, compute_rebalance,
}
use ai_api.Pool.Conservation.{rebalance_ok, assert_conservation-cases}
use ai_api.Rebalance.{
  Dialect, update_all, violates_unique, write_audit, commit_log, finish, checked, with_pool,
  with_config,
}
use ai_api.Rebalance.Reads.{
  PoolConfig, Trigger, RebalanceLog, Db, period_of, is_reserved, quota_sum, pool_members,
  previous_month_range,
}
use ai_api.Rebalance.Given.{given, update_all-given, noted, assigned, details-new_quota}

-- the members of the pool that a run at `now` finds
abbrev pub pool_at : DateTime → Db → List PoolMember
pool_at now db = pool_members db (previous_month_range now).0 (previous_month_range now).1

-- the results that a run by these settings computes
abbrev pub computed : PoolConfig → DateTime → Db → Result (List RebalanceResult)
computed cfg now db =
    compute_rebalance cfg.total_tokens_per_month cfg.floor_per_allocation
      (quota_sum is_reserved db.allocations) (pool_at now db)

-- the run has given the rows of the pool the computed quotas and has added its log row, which says so
-- and which the index admitted
abbrev pub Committed :
    Dialect → PoolConfig → Trigger → DateTime → Db → Result (Option RebalanceLog) × Db → Type 0
Committed dialect cfg trigger now db r =
    (log : RebalanceLog) × (results : List RebalanceResult) × (r.0 ≡ ok (some log))
    × (computed cfg now db ≡ ok results)
    × (map (λ m. m.allocation_id) (pool_at now db) ≡ map (λ r. r.allocation_id) results)
    × (r.1.allocations ≡ map (given results) db.allocations)
    × (r.1.rebalance_log ≡ db.rebalance_log ++ log ∷ [])
    × (map noted log.details ≡ map assigned results)
    × (log.period ≡ period_of now)
    × (log.triggered_by ≡ trigger)
    × (violates_unique dialect db.rebalance_log (period_of now) trigger ≡ false)

-- the run has raised or was skipped, and has changed no allocation and no log row
abbrev pub LeftAlone : Db → Result (Option RebalanceLog) × Db → Type 0
LeftAlone db r =
    (r.1.allocations ≡ db.allocations)
    × (r.1.rebalance_log ≡ db.rebalance_log)
    × ((log : RebalanceLog) → r.0 ≢ ok (some log))

abbrev pub Outcome :
    Dialect → PoolConfig → Trigger → DateTime → Db → Result (Option RebalanceLog) × Db → Type 0
Outcome dialect cfg trigger now db r = Committed dialect cfg trigger now db r ⊎ LeftAlone db r

-- the tables that a run reads, and has not changed before it commits
abbrev pub SameTables : Db → Db → Type 0
SameTables start db =
    (db.allocations ≡ start.allocations)
    × (db.rebalance_log ≡ start.rebalance_log)
    × (db.call_records ≡ start.call_records)

module _ (dialect : Dialect) (cfg : PoolConfig) (trigger : Trigger) (now : DateTime)
    (start : Db) where
  commit_log-Outcome :
      (log : RebalanceLog) (db : Db) (results : List RebalanceResult)
      → computed cfg now start ≡ ok results
      → map (λ m. m.allocation_id) (pool_at now start) ≡ map (λ r. r.allocation_id) results
      → db.allocations ≡ map (given results) start.allocations
      → db.rebalance_log ≡ start.rebalance_log
      → map noted log.details ≡ map assigned results
      → log.period ≡ period_of now
      → log.triggered_by ≡ trigger
      → Outcome dialect cfg trigger now start (commit_log dialect start log db)
  unfolding commit_log write_audit
  commit_log-Outcome log db results from ids rows logs details period by =
      elim (Bool-cases (violates_unique dialect db.rebalance_log log.period log.triggered_by)) [
        | inl clash ↦ rw clash (inr (refl, refl, λ l h. cc))
        | inr free ↦ rw free (
            inl (
              log,
              results,
              refl,
              from,
              ids,
              rows,
              ap (λ (t : List RebalanceLog). t ++ log ∷ []) logs,
              details,
              period,
              by,
              rw (logs, period, by) at free,
            ))
      ]

  finish-Outcome :
      (total : ℕ) (r : ℤ) (pool : List PoolMember) (results : List RebalanceResult) (db : Db)
      → SameTables start db
      → pool ≡ pool_at now start
      → computed cfg now start ≡ ok results
      → map (λ r. r.allocation_id) results ≡ map (λ m. m.allocation_id) pool
      → Outcome dialect cfg trigger now start
          (finish dialect trigger now start total r pool results db)
  unfolding finish
  finish-Outcome total r pool results db same whole from ids =
      commit_log-Outcome _ _ results from
        (sym (ids ∙ ap (map (λ (m : PoolMember). m.allocation_id)) whole))
        (ap (update_all results) same.0 ∙ update_all-given results start.allocations) same.1
        (details-new_quota db.allocations pool results ids) refl refl

  checked-Outcome :
      (m : PoolMember) (ms : List PoolMember) (db : Db) (c : Result (List RebalanceResult))
      → SameTables start db
      → m ∷ ms ≡ pool_at now start
      → computed cfg now start ≡ c
      → Outcome dialect cfg trigger now start (
          checked dialect trigger now start cfg.total_tokens_per_month
            (quota_sum is_reserved db.allocations)
            (m ∷ ms)
            db
            c)
  unfolding checked write_audit
  checked-Outcome m ms db (ok results) same whole from =
      let total = cfg.total_tokens_per_month in
      let reserved = quota_sum is_reserved db.allocations in
      let computes : compute_rebalance total cfg.floor_per_allocation
            (quota_sum is_reserved start.allocations) (m ∷ ms)
          ≡ ok results =
        ap (compute_rebalance total cfg.floor_per_allocation _) whole ∙ from in
      let ids =
        (rebalance_ok total cfg.floor_per_allocation (quota_sum is_reserved start.allocations) m ms
          results computes).1 in
      elim (assert_conservation-cases results reserved total) [
        | inl passed ↦
            rw (passed, checked)
              (finish-Outcome total reserved (m ∷ ms) results db same whole from ids)
        | inr failed ↦ rw (failed, checked) (inr (same.0, same.1, λ l h. cc))
      ]
  checked-Outcome m ms db (err exhausted_by_reserved) same whole from =
      inr (same.0, same.1, λ l h. cc)
  checked-Outcome m ms db (err _) same whole from = inr (same.0, same.1, λ l h. cc)

  with_pool-Outcome :
      (pool : List PoolMember) (db : Db)
      → SameTables start db
      → pool ≡ pool_at now start
      → Outcome dialect cfg trigger now start (with_pool dialect trigger now start cfg pool db)
  unfolding with_pool write_audit
  with_pool-Outcome [] db same whole = inr (same.0, same.1, λ l h. cc)
  with_pool-Outcome (m ∷ ms) db same whole =
      checked-Outcome m ms db _ same whole (cc (same.0, whole))

  pub with_config-Outcome :
      (db : Db)
      → SameTables start db
      → Outcome dialect cfg trigger now start (with_config dialect trigger now start cfg db)
  unfolding with_config write_audit pool_members
  with_config-Outcome db same = elim (Bool-cases (cfg.total_tokens_per_month == 0)) [
    | inl disabled ↦ rw disabled (inr (same.0, same.1, λ l h. cc))
    | inr enabled ↦ rw enabled (with_pool-Outcome _ db same (rw (same.0, same.2) refl))
  ]
