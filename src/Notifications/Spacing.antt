-- ===== src/Notifications/Spacing.antt =====
-- src/ai_api/services/notifier_email.py: how far apart mails about events of one type are.
use mathlib.Core.Path.{subst}
use ai_api.Base.{
  ℕ, ◌+◌, ◌≤◌, ◌≡◌, inl, inr, sym, Bool, true, false, none, List, [], ◌∷◌, arith, All, any, modify,
  text_eq, text_eq_sound, text_eq_refl, leb, ◌==◌, ◌&&◌, Bool-cases,
}
use ai_api.Models.{Text, Instant}
use ai_api.Notifications.{Crypto}
use ai_api.Notifications.Tables.{
  Outbox, Alert, NotificationDedupBucket, dedup_window, active_bucket, is_active_for, bucket_key,
  count_event, empty_outbox,
}
use ai_api.Notifications.Mailer.{open_bucket}
use ai_api.Notifications.Effects.{IsKept, run_all-kept}
use ai_api.Notifications.Calls.{Call, run_all}

-- an alert's bucket: of its type, and open for a window
abbrev covers : Alert → NotificationDedupBucket → Bool
covers a b = text_eq b.event_type a.event_type && leb (a.at + dedup_window) b.window_end

-- each alert comes a window after those of its type before it
abbrev pub Spaced : List Alert → Type 0
Spaced [] = Unit
Spaced (a ∷ alerts) =
    All (λ b. text_eq b.event_type a.event_type ≡ true → b.at + dedup_window ≤ a.at) alerts
    × Spaced alerts

abbrev pub SpacedOut : Outbox → Type 0
SpacedOut st = All (λ a. any (covers a) st.buckets ≡ true) st.alerts × Spaced st.alerts

any-covers-modify :
    (a : Alert) (id : ℕ) (now : Instant) (buckets : List NotificationDedupBucket)
    → any (covers a) buckets ≡ true
    → any (covers a) (modify bucket_key id (count_event now) buckets) ≡ true
unfolding count_event
any-covers-modify a id now [] h = h
any-covers-modify a id now (b ∷ buckets) h = elim (Bool-cases (b.id == id)) [
  | inl found ↦ rw found (ground (arith, h, any-covers-modify a id now buckets))
  | inr other ↦ rw other (ground (arith, h, any-covers-modify a id now buckets))
]

-- the types of a bucket, of an alert that it covers and of an event that comes
covers_event :
    (a : Alert) (now : Instant) (event : Text) (b : NotificationDedupBucket)
    → covers a b ≡ true
    → text_eq a.event_type event ≡ true
    → is_active_for now event b ≡ false
    → a.at + dedup_window ≤ now
covers_event a now event b covered same idle = ground (arith, covered, idle, of_type)
  where
    of_type : text_eq b.event_type event ≡ true
    of_type =
        subst (λ t. text_eq t event ≡ true)
          (sym (text_eq_sound b.event_type a.event_type (ground (arith, covered)))) same

active_bucket-step :
    (now : Instant) (event : Text) (b : NotificationDedupBucket)
    (buckets : List NotificationDedupBucket)
    → active_bucket now event (b ∷ buckets) ≡ none
    → is_active_for now event b ≡ false
unfolding active_bucket
active_bucket-step now event b buckets none_open = elim (Bool-cases (is_active_for now event b)) [
  | inl active ↦ ground (arith, active, none_open)
  | inr idle ↦ idle
]

active_bucket-rest :
    (now : Instant) (event : Text) (b : NotificationDedupBucket)
    (buckets : List NotificationDedupBucket)
    → active_bucket now event (b ∷ buckets) ≡ none
    → active_bucket now event buckets ≡ none
unfolding active_bucket
active_bucket-rest now event b buckets none_open = elim (Bool-cases (is_active_for now event b)) [
  | inl active ↦ ground (arith, active, none_open)
  | inr idle ↦ ground (arith, idle, none_open)
]

-- where no bucket of an event's type is open, the alerts of that type lie a window back
window_past :
    (a : Alert) (now : Instant) (event : Text) (buckets : List NotificationDedupBucket)
    → any (covers a) buckets ≡ true
    → active_bucket now event buckets ≡ none
    → text_eq a.event_type event ≡ true
    → a.at + dedup_window ≤ now
window_past a now event [] h none_open same = cc
window_past a now event (b ∷ buckets) h none_open same = elim (Bool-cases (covers a b)) [
  | inl covered ↦
      covers_event a now event b covered same (active_bucket-step now event b buckets none_open)
  | inr other ↦
      window_past a now event buckets (ground (arith, h, other))
        (active_bucket-rest now event b buckets none_open) same
]

All-window_past :
    (now : Instant) (event : Text) (buckets : List NotificationDedupBucket) (alerts : List Alert)
    → All (λ a. any (covers a) buckets ≡ true) alerts
    → active_bucket now event buckets ≡ none
    → All (λ a. text_eq a.event_type event ≡ true → a.at + dedup_window ≤ now) alerts
All-window_past now event buckets [] h none_open = tt
All-window_past now event buckets (a ∷ alerts) h none_open = (
  window_past a now event buckets h.0 none_open,
  All-window_past now event buckets alerts h.1 none_open,
)

All-covers-modify :
    (id : ℕ) (now : Instant) (buckets : List NotificationDedupBucket) (alerts : List Alert)
    → All (λ a. any (covers a) buckets ≡ true) alerts
    → All (λ a. any (covers a) (modify bucket_key id (count_event now) buckets) ≡ true) alerts
All-covers-modify id now buckets [] h = tt
All-covers-modify id now buckets (a ∷ alerts) h =
    (any-covers-modify a id now buckets h.0, All-covers-modify id now buckets alerts h.1)

All-covers-cons :
    (b : NotificationDedupBucket) (buckets : List NotificationDedupBucket) (alerts : List Alert)
    → All (λ a. any (covers a) buckets ≡ true) alerts
    → All (λ a. any (covers a) (b ∷ buckets) ≡ true) alerts
All-covers-cons b buckets [] h = tt
All-covers-cons b buckets (a ∷ alerts) h =
    (ground (arith, h.0), All-covers-cons b buckets alerts h.1)

SpacedOut-IsKept : (crypto : Crypto) → IsKept crypto SpacedOut
SpacedOut-IsKept crypto = record {
  recorded = λ rows st h. h;
  saved = λ nonce now form st h. h;
  deleted = λ st h. h;
  invalidated = λ cfg st h. h;
  counted = λ id now st h. (All-covers-modify id now st.buckets st.alerts h.0, h.1);
  alerted = λ id record_id now event st none_open h. (
    (
      ground (arith, text_eq_refl event),
      All-covers-cons (open_bucket id record_id now event) st.buckets st.alerts h.0,
    ),
    (All-window_past now event st.buckets st.alerts h.0 none_open, h.1),
  );
  judged = λ now result cfg st set h. h;
}

-- Administrators are not flooded: after whatever sequence of calls from an empty database, whatever their instants
-- and the answers of the mail server, each mail about an event comes five minutes or more after every mail before
-- it about an event of the same type, also where that one failed.
pub alert_spacing :
    (crypto : Crypto) (calls : List Call) → Spaced (run_all crypto calls empty_outbox).alerts
alert_spacing crypto calls =
    (run_all-kept SpacedOut (SpacedOut-IsKept crypto) calls empty_outbox (tt, tt)).1
