-- ===== src/Anomaly/Tests.antt =====
-- An allocation with two calls in the last hour, under a cold start of two; alerts of two failures.
use ai_api.Base.{
  ◌≡◌, refl, ℕ, Bool, true, false, none, some, List, [], ◌∷◌, map, leb, ◌*◌, ◌+◌, ◌&&◌,
  if◌then◌else◌,
}
use ai_api.Models.{Instant, second, Allocation, AllocationStatus, AllocationOrigin, CallOutcome}
use ai_api.Anomaly.{
  CallAt, Detector, AnomalyDb, hour, count_calls, decide, evaluate_allocation, effective_enforcing,
  paused, get_anomaly_config, considered, quarantine_row, quarantine_one, scan_one, scan_all,
  detect_and_quarantine,
}
use ai_api.Anomaly.Scan.{is_flagged, detect_and_quarantine_lem}
use ai_api.Anomaly.Burst.{
  BurstSettings, latest_failure, later_call, detect_upstream_burst, Spaced, run_all, burst_spacing,
}

abbrev allocation : Bool → ℕ → Allocation
allocation service id = record {
  id = id;
  member_id = 7;
  resource_model = b'm' ∷ [];
  status = AllocationStatus.active;
  created_at = 0;
  revoked_at = none;
  quota_tokens_per_month = none;
  quota_cost_usd_per_month = none;
  is_service_allocation = service;
  quota_locked = false;
  origin = AllocationOrigin.admin;
}

abbrev call : CallOutcome → Instant → CallAt
call outcome at = record {
  allocation_id = some 1;
  started_at = at;
  outcome = outcome;
  model = some (b'm' ∷ []);
}

abbrev detector : Detector
detector = record {
  default_min_calls = 2;
  default_absolute = 2;
  out_of_ratio = λ last total. leb (total * 10) (last * 23);
}

abbrev db : AnomalyDb
db = record {
  config = none;
  allocations = allocation false 1 ∷ allocation true 2 ∷ [];
  calls = call CallOutcome.success (30 * hour) ∷ call CallOutcome.success (30 * hour) ∷ [];
  audit_log = [];
}

quarantined :
    map (λ a. a.status) (detect_and_quarantine detector (30 * hour + second) db).1.allocations
    ≡ AllocationStatus.quarantined ∷ AllocationStatus.active ∷ []
unfolding detect_and_quarantine get_anomaly_config scan_all scan_one evaluate_allocation decide
    count_calls effective_enforcing paused quarantine_one
quarantined = refl

detect_and_quarantine_lem_example :
    (detect_and_quarantine detector (30 * hour + second) db).1.allocations
    ≡ map
        (λ a.
          if considered a
            && is_flagged detector
                (get_anomaly_config detector none)
                (30 * hour + second)
                db.calls
                a.id
          then quarantine_row a
          else a)
        db.allocations
detect_and_quarantine_lem_example =
    detect_and_quarantine_lem detector (30 * hour + second) db ((refl, tt), (tt, tt))

abbrev settings : BurstSettings
settings = record { threshold = 2; window_minutes = 1 }

abbrev failing : List CallAt
failing = call CallOutcome.upstream_error 100 ∷ call CallOutcome.upstream_error 200 ∷ []

alerted : (detect_upstream_burst settings 300 failing []).1 ≡ 300 ∷ []
unfolding detect_upstream_burst latest_failure later_call
alerted = refl

burst_spacing_example : Spaced settings (
    run_all settings
      (record { now = 300; calls = failing } ∷ record { now = 400; calls = failing } ∷ [])
      [])
burst_spacing_example =
    burst_spacing settings
      (record { now = 300; calls = failing } ∷ record { now = 400; calls = failing } ∷ []) [] tt
