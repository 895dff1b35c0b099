-- ===== src/Anomaly.antt =====
-- src/ai_api/services/anomaly.py: the scan that quarantines allocations whose calls of the last hour are out of
-- proportion. The comparison of a rate with a multiple of the baseline, in floating point, is an argument,
-- and so are the present instant and the settings that a new row of the configuration takes.
pub mod Burst
pub mod Scan
mod Tests
use ai_api.Base.{
  ℕ, ◌+◌, ◌*◌, Bool, true, false, not, Option, none, some, List, [], ◌∷◌, ◌++◌, filter, length,
  if◌then◌else◌, leb, ltb, ◌==◌, ◌&&◌, modify,
}
use ai_api.Models.{
  Text, Instant, second, Allocation, AllocationStatus, is_active, CallOutcome, is_success,
  ActorType, AuditEntry,
}
use ai_api.Models.Events.{AuditEventType}
use ai_api.Allocations.{allocation_id}

-- the columns of a call record that the detectors read, with the instant of its start
pub record CallAt : Type 0 where
  pub allocation_id : Option ℕ
  pub started_at : Instant
  pub outcome : CallOutcome
  pub model : Option Text

pub record AnomalyConfig : Type 0 where
  pub auto_quarantine_enabled : Bool
  pub pause_until : Option Instant
  pub min_calls : ℕ
  pub absolute_cold_start : ℕ
  pub baseline_min_calls : ℕ

-- The settings of a new configuration, and the test `last_hour >= baseline_total / 23.0 * multiplier` in
-- double precision, which no greater number of calls fails.
pub record Detector : Type 0 where
  pub default_min_calls : ℕ
  pub default_absolute : ℕ
  pub out_of_ratio : ℕ → ℕ → Bool

pub data QuarantineReason : Type 0 where
  ratio absolute_cold_start : QuarantineReason

-- without the baseline per hour, which is a text of the log
pub record QuarantineDecision : Type 0 where
  pub allocation_id : ℕ
  pub last_hour_calls : ℕ
  pub reason : QuarantineReason

abbrev pub hour : ℕ
hour = 60 * 60 * second

abbrev pub calls_of : ℕ → CallAt → Bool
calls_of id c = elim c.allocation_id [ none ↦ false | some a ↦ a == id ]

-- `_count_calls`, of the calls that began at most `from` and more than `until` before `now`; the end of the
-- last hour is `now` itself
unfoldable pub count_calls : ℕ → ℕ → ℕ → Instant → List CallAt → ℕ
count_calls id from until now calls = length (
    filter
      (λ c.
        calls_of id c
        && (leb now (c.started_at + from)
            && (ltb (c.started_at + until) now && is_success c.outcome)))
      calls)

-- `_paused`, `effective_enforcing`
unfoldable pub paused : Instant → AnomalyConfig → Bool
paused now cfg = elim cfg.pause_until [ none ↦ false | some until ↦ ltb now until ]

unfoldable pub effective_enforcing : Instant → AnomalyConfig → Bool
unfolding paused
effective_enforcing now cfg = cfg.auto_quarantine_enabled && not (paused now cfg)

-- `get_anomaly_config`
unfoldable pub get_anomaly_config : Detector → Option AnomalyConfig → AnomalyConfig
get_anomaly_config d (some cfg) = cfg
get_anomaly_config d none = record {
  auto_quarantine_enabled = true;
  pause_until = none;
  min_calls = d.default_min_calls;
  absolute_cold_start = d.default_absolute;
  baseline_min_calls = 200;
}

abbrev pub decision : ℕ → ℕ → QuarantineReason → QuarantineDecision
decision id last_hour reason = record {
  allocation_id = id;
  last_hour_calls = last_hour;
  reason = reason;
}

-- the rules, on the two counts
unfoldable pub decide : Detector → AnomalyConfig → ℕ → ℕ → ℕ → Option QuarantineDecision
decide d cfg id last_hour baseline_total =
    if ltb last_hour cfg.min_calls
    then none
    else if ltb baseline_total cfg.baseline_min_calls
    then (if leb cfg.absolute_cold_start last_hour
        then some (decision id last_hour QuarantineReason.absolute_cold_start)
        else none)
    else if d.out_of_ratio last_hour baseline_total
    then some (decision id last_hour QuarantineReason.ratio)
    else none

-- `evaluate_allocation`
unfoldable pub evaluate_allocation :
    Detector → AnomalyConfig → ℕ → Instant → List CallAt → Option QuarantineDecision
unfolding decide count_calls
evaluate_allocation d cfg id now calls =
    decide d cfg id (count_calls id hour 0 now calls) (count_calls id (24 * hour) hour now calls)

pub record AnomalyDb : Type 0 where
  pub config : Option AnomalyConfig
  pub allocations : List Allocation
  pub calls : List CallAt
  pub audit_log : List AuditEntry

abbrev pub system_audit : AuditEventType → Option ℕ → AuditEntry
system_audit event target = record {
  event_type = event;
  actor_type = ActorType.system;
  target_id = target;
}

-- the allocations that a scan considers
abbrev pub considered : Allocation → Bool
considered a = is_active a.status && not a.is_service_allocation

abbrev pub quarantine_row : Allocation → Allocation
quarantine_row a = record a { status = AllocationStatus.quarantined }

unfoldable pub quarantine_one : ℕ → AnomalyDb → AnomalyDb
quarantine_one id db = record db {
  allocations = modify allocation_id id quarantine_row db.allocations;
  audit_log = db.audit_log ++ system_audit AuditEventType.allocation_quarantined (some id) ∷ [];
}

-- the turn of an allocation: its decision stands where the scan enforces
unfoldable pub scan_one :
    Detector
    → AnomalyConfig
    → Instant
    → Allocation
    → AnomalyDb
    → Option QuarantineDecision × AnomalyDb
unfolding evaluate_allocation quarantine_one effective_enforcing
scan_one d cfg now a db = elim (evaluate_allocation d cfg a.id now db.calls) [
  | none ↦ (none, db)
  | some found ↦
      if effective_enforcing now cfg then (some found, quarantine_one a.id db) else (none, db)
]

abbrev pub add_decision :
    Option QuarantineDecision → List QuarantineDecision → List QuarantineDecision
add_decision none ds = ds
add_decision (some d) ds = d ∷ ds

-- the loop
unfoldable pub scan_all :
    Detector
    → AnomalyConfig
    → Instant
    → List Allocation
    → AnomalyDb
    → List QuarantineDecision × AnomalyDb
unfolding scan_one
scan_all d cfg now [] db = ([], db)
scan_all d cfg now (a ∷ allocations) db =
    let r = scan_one d cfg now a db in
    let rest = scan_all d cfg now allocations r.1 in (add_decision r.0 rest.0, rest.1)

-- `detect_and_quarantine`
unfoldable pub detect_and_quarantine :
    Detector → Instant → AnomalyDb → List QuarantineDecision × AnomalyDb
unfolding scan_all get_anomaly_config
detect_and_quarantine d now db =
    let cfg = get_anomaly_config d db.config in
    let r =
      scan_all d cfg now (filter considered db.allocations) (record db { config = some cfg }) in
    (
      r.0,
      record r.1 {
        audit_log = r.1.audit_log ++ system_audit AuditEventType.anomaly_detector_run none ∷ [];
      },
    )
