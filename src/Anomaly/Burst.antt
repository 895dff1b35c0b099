-- ===== src/Anomaly/Burst.antt =====
-- src/ai_api/services/upstream_burst_detector.py: the alert of a burst of upstream errors, and its spacing.
use ai_api.Base.{
  ℕ, ◌+◌, ◌*◌, ◌<◌, ◌≡◌, inl, inr, Bool, true, false, Option, none, some, List, [], ◌∷◌, filter,
  any, length, if◌then◌else◌, leb, ltb, ◌&&◌, ◌||◌, arith, All, Bool-cases,
}
use ai_api.Models.{Text, Instant, second, CallOutcome}
use ai_api.Anomaly.{CallAt}

abbrev pub is_upstream_error : CallOutcome → Bool
is_upstream_error CallOutcome.upstream_error = true
is_upstream_error _ = false

-- `upstream_burst_threshold` and `upstream_burst_window_minutes`
pub record BurstSettings : Type 0 where
  pub threshold : ℕ
  pub window_minutes : ℕ

pub record BurstDecision : Type 0 where
  pub failure_count : ℕ
  pub window_minutes : ℕ
  pub latest_model : Option Text

abbrev pub window : BurstSettings → ℕ
window s = s.window_minutes * 60 * second

-- the failures of the window, up to `now`
abbrev pub failures : BurstSettings → Instant → List CallAt → List CallAt
failures s now calls =
    filter
      (λ c.
        is_upstream_error c.outcome && (leb now (c.started_at + window s) && leb c.started_at now))
      calls

-- `ORDER BY started_at DESC LIMIT 1`, of the failures since the window began
unfoldable pub later_call : CallAt → Option CallAt → CallAt
later_call c none = c
later_call c (some d) = if leb d.started_at c.started_at then c else d

unfoldable pub latest_failure : BurstSettings → Instant → List CallAt → Option CallAt
unfolding later_call
latest_failure s now [] = none
latest_failure s now (c ∷ calls) =
    let rest = latest_failure s now calls in
    if is_upstream_error c.outcome && leb now (c.started_at + window s)
    then some (later_call c rest)
    else rest

abbrev pub model_of : Option CallAt → Option Text
model_of none = none
model_of (some c) = c.model

-- whether an alert was written since the window began
abbrev pub recent_burst : BurstSettings → Instant → List Instant → Bool
recent_burst s now bursts = any (λ at. leb now (at + window s)) bursts

-- `detect_upstream_burst`, over the instants of the alerts that the audit log has
unfoldable pub detect_upstream_burst :
    BurstSettings → Instant → List CallAt → List Instant → Option BurstDecision × List Instant
unfolding latest_failure
detect_upstream_burst s now calls bursts =
    if ltb (length (failures s now calls)) s.threshold || recent_burst s now bursts
    then (none, bursts)
    else (
      some (record {
        failure_count = length (failures s now calls);
        window_minutes = s.window_minutes;
        latest_model = model_of (latest_failure s now calls);
      }),
      now ∷ bursts,
    )

-- a run of the detector, with the calls that it finds
pub record Run : Type 0 where
  pub now : Instant
  pub calls : List CallAt

pub run_all : BurstSettings → List Run → List Instant → List Instant
run_all s [] bursts = bursts
run_all s (r ∷ runs) bursts = run_all s runs (detect_upstream_burst s r.now r.calls bursts).1

-- each alert comes more than a window after those before it
abbrev pub Spaced : BurstSettings → List Instant → Type 0
Spaced s [] = Unit
Spaced s (at ∷ bursts) = All (λ before. before + window s < at) bursts × Spaced s bursts

All-not_recent :
    (s : BurstSettings) (now : Instant) (bursts : List Instant)
    → recent_burst s now bursts ≡ false
    → All (λ at. at + window s < now) bursts
All-not_recent s now [] h = tt
All-not_recent s now (at ∷ bursts) h =
    (ground (arith, h), All-not_recent s now bursts (ground (arith, h)))

Spaced-detect :
    (s : BurstSettings) (now : Instant) (calls : List CallAt) (bursts : List Instant)
    → Spaced s bursts
    → Spaced s (detect_upstream_burst s now calls bursts).1
unfolding detect_upstream_burst
Spaced-detect s now calls bursts h =
    elim (Bool-cases
      (ltb (length (failures s now calls)) s.threshold || recent_burst s now bursts)) [
        | inl quiet ↦ rw quiet h
        | inr burst ↦ rw burst (All-not_recent s now bursts (ground (arith, burst)), h)
      ]

-- Alerts are spaced: after whatever runs of the detector, at whatever instants and over whatever calls, each
-- alert comes more than a window of minutes after every alert before it, if that was so at first.
pub burst_spacing :
    (s : BurstSettings) (runs : List Run) (bursts : List Instant)
    → Spaced s bursts
    → Spaced s (run_all s runs bursts)
unfolding run_all
burst_spacing s [] bursts h = h
burst_spacing s (r ∷ runs) bursts h =
    burst_spacing s runs (detect_upstream_burst s r.now r.calls bursts).1
      (Spaced-detect s r.now r.calls bursts h)
