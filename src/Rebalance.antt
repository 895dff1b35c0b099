-- ===== src/Rebalance.antt =====
-- The database half of src/ai_api/services/quota_pool.py, with `services/quota.py`: the pool's
-- settings, the rows that take part, the transaction of `apply_rebalance`.
-- A transaction begins at the call, as in cli/run_rebalance.py and api/quota_pool.py, so a rollback
-- returns to the tables that the call was given.
pub mod Outcomes
pub mod Reads
pub mod Given
pub mod Months
pub mod Sums
pub mod Config
pub mod Atomic
pub mod Transaction
mod Tests
use ai_api.Base.{
  ℕ, zero, suc, ◌+◌, ◌-◌, ◌*◌, ◌/◌, Bool, true, false, not, ◌&&◌, ◌||◌, Option, none, some, List,
  [], ◌∷◌, ◌++◌, map, ltb, leb, ◌==◌, if◌then◌else◌, length, filter, find?, any, update_where,
  sum_by,
}
use ai_api.Base.Int.{ℤ, pos, ◌+ℤ◌, eqb_ℤ}
use ai_api.Models.{Allocation, CallRecord, ActorType, AuditEntry, is_active, is_success}
use ai_api.Models.Time.{DateTime, month_start, at_or_before, before}
use ai_api.Models.Events.{AuditEventType}
use ai_api.Pool.{
  PoolMember, Reason, RebalanceResult, PoolError, Result, ok, err, conservation_error,
  pool_disabled, exhausted_by_reserved, pool_idle, assert_conservation, compute_rebalance,
}
use ai_api.Rebalance.Reads.{
  PoolConfig, Trigger, is_cron, Detail, RebalanceLog, Db, previous_month_range, period_of,
  get_pool_config, in_pool, is_reserved, quota_or_zero, quota_sum, active_pool_member_count,
  pool_members, cron, admin_manual,
}

-- `before_map.get(id, 0)`
quota_before : List Allocation → ℕ → ℤ
quota_before rows id = elim (find? (λ a. a.id == id) rows) [
  | none ↦ pos 0
  | some a ↦ quota_or_zero a
]

-- the loop that fills `details`
pub details_of : List Allocation → List PoolMember → List RebalanceResult → List Detail
details_of rows (m ∷ ms) (r ∷ rs) =
    record {
      id = r.allocation_id;
      before = quota_before rows m.allocation_id;
      after = r.new_quota;
      usage = m.usage_last_month;
      reason = r.reason;
    }
    ∷ details_of rows ms rs
details_of rows _ _ = []

changed_count : List Detail → ℕ
changed_count [] = 0
changed_count (d ∷ ds) = (if eqb_ℤ d.after d.before then 0 else 1) + changed_count ds

-- the last member of the largest usage; `max_usage` starts at -1, so the first member is always taken
leftover_target_of : Option ℕ → ℕ → List PoolMember → Option ℕ
leftover_target_of target max_usage [] = target
leftover_target_of target max_usage (m ∷ ms) =
    let taken = leb max_usage m.usage_last_month in
    leftover_target_of (if taken then some m.allocation_id else target)
      (if taken then m.usage_last_month else max_usage) ms

-- the UPDATE of one result, guarded as the SELECT was
update_one : RebalanceResult → List Allocation → List Allocation
update_one r =
    update_where (λ a. a.id == r.allocation_id && in_pool a)
      (λ a. record a { quota_tokens_per_month = some r.new_quota })

pub update_all : List RebalanceResult → List Allocation → List Allocation
update_all [] rows = rows
update_all (r ∷ rs) rows = update_all rs (update_one r rows)

-- The unique indexes of migration 0005: on PostgreSQL for the runs of the cron job, on SQLite for any
-- trigger.
pub data Dialect : Type 0 where
  postgresql sqlite : Dialect

same_trigger : Trigger → Trigger → Bool
same_trigger cron cron = true
same_trigger admin_manual admin_manual = true
same_trigger _ _ = false

-- the triggers that the dialect's index covers
abbrev pub deduplicates : Dialect → Trigger → Bool
deduplicates postgresql trigger = is_cron trigger
deduplicates sqlite trigger = true

pub violates_unique : Dialect → List RebalanceLog → ℕ × ℕ → Trigger → Bool
unfolding same_trigger
violates_unique dialect logs (y, m) trigger =
    deduplicates dialect trigger
    && any (λ l. same_trigger l.triggered_by trigger && (l.period.0 == y && l.period.1 == m)) logs

write_audit : AuditEventType → Trigger → Db → Db
write_audit event trigger db = record db {
  audit_log =
      db.audit_log
      ++ record {
        event_type = event;
        actor_type = if is_cron trigger then ActorType.system else ActorType.admin;
        target_id = none;
      }
        ∷ [];
}

-- From the flush of the new row on: a violated index rolls the transaction back to `start`.
commit_log : Dialect → Db → RebalanceLog → Db → Result (Option RebalanceLog) × Db
commit_log dialect start log db =
    if violates_unique dialect db.rebalance_log log.period log.triggered_by
    then (ok none, start)
    else (
      ok (some log),
      write_audit AuditEventType.quota_pool_rebalanced log.triggered_by
          (record db { rebalance_log = db.rebalance_log ++ log ∷ [] }),
    )

-- From the computed results on.
finish :
    Dialect
    → Trigger
    → DateTime
    → Db
    → ℕ
    → ℤ
    → List PoolMember
    → List RebalanceResult
    → Db
    → Result (Option RebalanceLog) × Db
finish dialect trigger now start total reserved_total pool results db =
    let details = details_of db.allocations pool results in
    commit_log dialect start
      (record {
        period = period_of now;
        triggered_by = trigger;
        started_at = now;
        T_before = total;
        T_after = total;
        scanned = length pool;
        changed = changed_count details;
        details = details;
        reserved_total = reserved_total;
        leftover_target = leftover_target_of none 0 pool;
      })
      (record db { allocations = update_all results db.allocations })

-- The result of the pure computation, checked once more. A conservation error leaves no audit row.
checked :
    Dialect
    → Trigger
    → DateTime
    → Db
    → ℕ
    → ℤ
    → List PoolMember
    → Db
    → Result (List RebalanceResult)
    → Result (Option RebalanceLog) × Db
checked dialect trigger now start total reserved_total pool db (ok results) =
    elim (assert_conservation results reserved_total total) [
      | ok rs ↦ finish dialect trigger now start total reserved_total pool rs db
      | err e ↦ (err e, db)
    ]
checked dialect trigger now start total reserved_total pool db (err exhausted_by_reserved) =
    (err exhausted_by_reserved, write_audit AuditEventType.pool_exhausted_by_reserved trigger db)
checked dialect trigger now start total reserved_total pool db (err e) = (err e, db)

-- The members of the pool are known.
with_pool :
    Dialect
    → Trigger
    → DateTime
    → Db
    → PoolConfig
    → List PoolMember
    → Db
    → Result (Option RebalanceLog) × Db
with_pool dialect trigger now start cfg [] db =
    (err pool_idle, write_audit AuditEventType.pool_idle trigger db)
with_pool dialect trigger now start cfg (m ∷ ms) db =
    let reserved_total = quota_sum is_reserved db.allocations in
    checked dialect trigger now start cfg.total_tokens_per_month reserved_total (m ∷ ms) db (
      compute_rebalance cfg.total_tokens_per_month cfg.floor_per_allocation reserved_total (m ∷ ms))

-- The settings are known.
pub with_config :
    Dialect → Trigger → DateTime → Db → PoolConfig → Db → Result (Option RebalanceLog) × Db
with_config dialect trigger now start cfg db =
    let (since, until) = previous_month_range now in
    if cfg.total_tokens_per_month == 0
    then (err pool_disabled, write_audit AuditEventType.pool_idle trigger db)
    else with_pool dialect trigger now start cfg (pool_members db since until) db

-- `apply_rebalance`: `none` is the outcome of a skipped run.
pub apply_rebalance :
    Dialect → PoolConfig → Trigger → DateTime → Db → Result (Option RebalanceLog) × Db
apply_rebalance dialect settings trigger now start =
    let (cfg, db) = get_pool_config settings start in with_config dialect trigger now start cfg db

-- `PUT /quota-pool/config` of api/quota_pool.py, after the body's own bounds (both at least 0):
-- `false` is the answer 422.
pub update_pool_config : PoolConfig → PoolConfig → Db → Bool × Db
unfolding active_pool_member_count
update_pool_config settings body db =
    if ltb body.total_tokens_per_month (body.floor_per_allocation * active_pool_member_count db)
    then (false, db)
    else (
      true,
      (let (_, seeded) = get_pool_config settings db in
          record seeded {
            pool_config = some body;
            audit_log =
                seeded.audit_log
                ++ record {
                  event_type = AuditEventType.pool_config_updated;
                  actor_type = ActorType.admin;
                  target_id = some 1;
                }
                  ∷ [];
          }),
    )
