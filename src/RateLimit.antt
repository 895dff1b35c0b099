-- ===== src/RateLimit.antt =====
-- src/ai_api/auth/ratelimit.py: failed logins by email and by address, and the lockout. The present
-- instant and the threshold of the settings are arguments.
pub mod Lockout
mod Tests
use ai_api.Base.{
  ℕ, ◌+◌, ◌*◌, Bool, true, false, Option, none, some, List, [], ◌∷◌, ◌++◌, filter, any, length,
  if◌then◌else◌, leb, ◌&&◌, text_eq, lower,
}
use ai_api.Models.{Text, Instant, second}

pub data AttemptOutcome : Type 0 where
  success bad_password unknown_email locked disabled : AttemptOutcome

abbrev pub is_failure : AttemptOutcome → Bool
is_failure AttemptOutcome.bad_password = true
is_failure AttemptOutcome.unknown_email = true
is_failure _ = false

abbrev pub is_lock : AttemptOutcome → Bool
is_lock AttemptOutcome.locked = true
is_lock _ = false

pub record PasswordAttempt : Type 0 where
  pub email : Text
  pub attempted_at : Instant
  pub source_ip : Option Text
  pub outcome : AttemptOutcome

abbrev pub window : ℕ
window = 60 * second

abbrev pub threshold : ℕ
threshold = 5

abbrev pub lock_duration : ℕ
lock_duration = 15 * 60 * second

-- `record_attempt`
pub record_attempt :
    Text → AttemptOutcome → Option Text → Instant → List PasswordAttempt → List PasswordAttempt
record_attempt email outcome ip now rows =
    rows
    ++ record { email = lower email; attempted_at = now; source_ip = ip; outcome = outcome } ∷ []

-- whether an attempt was made within a duration up to `now`
abbrev pub since : ℕ → Instant → PasswordAttempt → Bool
since duration now r = leb now (r.attempted_at + duration)

-- a lock marker in force for an email, in lower case
abbrev pub locks_email : Text → Instant → PasswordAttempt → Bool
locks_email email now r = text_eq r.email email && (is_lock r.outcome && since lock_duration now r)

-- a failure of an email within the window
abbrev pub fails_email : Text → Instant → PasswordAttempt → Bool
fails_email email now r = text_eq r.email email && (is_failure r.outcome && since window now r)

-- `is_locked`
pub is_locked : Text → Instant → List PasswordAttempt → Bool × List PasswordAttempt
is_locked email now rows =
    if any (locks_email (lower email) now) rows
    then (true, rows)
    else if leb threshold (length (filter (fails_email (lower email) now) rows))
    then (true, record_attempt email AttemptOutcome.locked none now rows)
    else (false, rows)

abbrev pub from_ip : Text → PasswordAttempt → Bool
from_ip ip r = elim r.source_ip [ none ↦ false | some t ↦ text_eq t ip ]

-- "(ip-lock)"
abbrev pub ip_lock_email : Text
ip_lock_email = b'(' ∷ b'i' ∷ b'p' ∷ b'-' ∷ b'l' ∷ b'o' ∷ b'c' ∷ b'k' ∷ b')' ∷ []

-- the lock marker of an address
pub ip_marker : Text → Instant → PasswordAttempt
ip_marker ip now = record {
  email = ip_lock_email;
  attempted_at = now;
  source_ip = some ip;
  outcome = AttemptOutcome.locked;
}

-- `is_ip_locked`, for an address
pub is_address_locked : ℕ → Text → Instant → List PasswordAttempt → Bool × List PasswordAttempt
is_address_locked perip ip now rows =
    if any (λ r. from_ip ip r && (is_lock r.outcome && since lock_duration now r)) rows
    then (true, rows)
    else if leb perip
        (length (filter (λ r. from_ip ip r && (since window now r && is_failure r.outcome)) rows))
    then (true, rows ++ ip_marker ip now ∷ [])
    else (false, rows)

-- `is_ip_locked`
pub is_ip_locked : ℕ → Option Text → Instant → List PasswordAttempt → Bool × List PasswordAttempt
is_ip_locked perip none now rows = (false, rows)
is_ip_locked perip (some []) now rows = (false, rows)
is_ip_locked perip (some (c ∷ ip)) now rows = is_address_locked perip (c ∷ ip) now rows
