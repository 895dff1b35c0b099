-- ===== src/Rebalance/Reads.antt =====
-- What a run of the database half of src/ai_api/services/quota_pool.py reads: the settings, the rows that take part
-- and their usage, with the suggestion of src/ai_api/api/quota_pool.py.
use ai_api.Base.{
  ℕ, ◌-◌, ◌*◌, ◌/◌, Bool, true, false, not, ◌&&◌, ◌||◌, Option, none, some, List, [], ◌∷◌, map, ltb,
  leb, ◌==◌, if◌then◌else◌, length, filter, sum_by,
}
use ai_api.Base.Int.{ℤ, pos, ◌+ℤ◌}
use ai_api.Models.{Allocation, CallRecord, AuditEntry, is_active, is_success}
use ai_api.Models.Time.{DateTime, month_start, at_or_before, before}
use ai_api.Pool.{PoolMember, Reason}

pub record PoolConfig : Type 0 where
  pub total_tokens_per_month : ℕ
  pub floor_per_allocation : ℕ

pub data Trigger : Type 0 where
  cron admin_manual : Trigger

abbrev pub is_cron : Trigger → Bool
is_cron cron = true
is_cron admin_manual = false

-- a row of `details["allocations"]`
pub record Detail : Type 0 where
  pub id : ℕ
  pub before : ℤ
  pub after : ℤ
  pub usage : ℕ
  pub reason : Reason

-- `period_yyyymm` is the year and the month that it spells.
pub record RebalanceLog : Type 0 where
  pub period : ℕ × ℕ
  pub triggered_by : Trigger
  pub started_at : DateTime
  pub T_before : ℕ
  pub T_after : ℕ
  pub scanned : ℕ
  pub changed : ℕ
  pub details : List Detail
  pub reserved_total : ℤ
  pub leftover_target : Option ℕ

pub record Db : Type 0 where
  pub pool_config : Option PoolConfig
  pub allocations : List Allocation
  pub call_records : List CallRecord
  pub rebalance_log : List RebalanceLog
  pub audit_log : List AuditEntry

-- `previous_month_range_utc`
unfoldable pub previous_month_range : DateTime → DateTime × DateTime
previous_month_range now = (
  (if now.month == 1 then month_start (now.year - 1) 12 else month_start now.year (now.month - 1)),
  month_start now.year now.month,
)

-- `prev_start.strftime("%Y%m")`
unfoldable pub period_of : DateTime → ℕ × ℕ
period_of now = let (since, _) = previous_month_range now in (since.year, since.month)

-- `get_pool_config`: the settings' values are stored at the first read.
unfoldable pub get_pool_config : PoolConfig → Db → PoolConfig × Db
get_pool_config settings db = elim db.pool_config [
  | some cfg ↦ (cfg, db)
  | none ↦ (settings, record db { pool_config = some settings })
]

-- the WHERE clauses: active rows that are reserved, and the rows of the pool
abbrev pub in_pool : Allocation → Bool
in_pool a = is_active a.status && (not a.is_service_allocation && not a.quota_locked)

abbrev pub is_reserved : Allocation → Bool
is_reserved a = is_active a.status && (a.is_service_allocation || a.quota_locked)

-- `coalesce(quota_tokens_per_month, 0)`
abbrev pub quota_or_zero : Allocation → ℤ
quota_or_zero a = elim a.quota_tokens_per_month [ none ↦ pos 0 | some q ↦ q ]

-- the sum of the quotas of the rows that a WHERE clause takes
unfoldable pub quota_sum : (Allocation → Bool) → List Allocation → ℤ
quota_sum p [] = pos 0
quota_sum p (a ∷ rows) = (if p a then quota_or_zero a else pos 0) +ℤ quota_sum p rows

unfoldable pub active_pool_member_count : Db → ℕ
active_pool_member_count db = length (filter in_pool db.allocations)

unfoldable tokens_or_zero : CallRecord → ℕ
tokens_or_zero c = elim c.total_tokens [ none ↦ 0 | some n ↦ n ]

-- `started_at >= since AND started_at < until AND outcome = success`
unfoldable counted : DateTime → DateTime → CallRecord → Bool
counted since until c =
    is_success c.outcome && (at_or_before since c.started_at && before c.started_at until)

-- the call was made on the allocation
unfoldable made_on : ℕ → CallRecord → Bool
made_on id c = elim c.allocation_id [ none ↦ false | some i ↦ i == id ]

unfoldable pub usage_of : List CallRecord → DateTime → DateTime → ℕ → ℕ
unfolding tokens_or_zero counted made_on
usage_of calls since until id =
    sum_by tokens_or_zero (filter (λ c. made_on id c && counted since until c) calls)

pub recent_month_usage : Db → DateTime → ℕ
unfolding tokens_or_zero counted
recent_month_usage db now =
    let (since, until) = previous_month_range now in
    sum_by tokens_or_zero (filter (counted since until) db.call_records)

pub record PoolSuggestion : Type 0 where
  pub recent_month_tokens : ℕ
  pub pool_members : ℕ
  pub suggested_total : ℕ
  pub suggested_floor : ℕ

unfoldable pub suggest_pool_config : Db → DateTime → PoolSuggestion
unfolding active_pool_member_count
suggest_pool_config db now =
    let recent = recent_month_usage db now in
    let n = active_pool_member_count db in
    let quotient = recent * 2 / (2 * n) in
    record {
      recent_month_tokens = recent;
      pool_members = n;
      suggested_total = recent * 2;
      suggested_floor =
          if ltb 0 n && ltb 0 (recent * 2)
          then (if ltb 1000 quotient then quotient else 1000)
          else 1000;
    }

-- `ORDER BY id`
unfoldable pub insert_by_id : Allocation → List Allocation → List Allocation
insert_by_id a [] = a ∷ []
insert_by_id a (b ∷ bs) = if leb a.id b.id then a ∷ b ∷ bs else b ∷ insert_by_id a bs

unfoldable pub order_by_id : List Allocation → List Allocation
order_by_id [] = []
order_by_id (a ∷ rows) = insert_by_id a (order_by_id rows)

unfoldable pub pool_members : Db → DateTime → DateTime → List PoolMember
pool_members db since until =
    map
      (λ a. record {
        allocation_id = a.id;
        usage_last_month = usage_of db.call_records since until a.id;
      })
      (order_by_id (filter in_pool db.allocations))
