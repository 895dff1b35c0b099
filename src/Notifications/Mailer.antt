-- ===== src/Notifications/Mailer.antt =====
-- src/ai_api/services/notifier_email.py: mails to administrators about events, and the test mail. What the mail
-- server answers is an argument of each call; of a record, its texts, latency, code of SMTP, audit row and the
-- status of each recipient are left out.
use ai_api.Base.{
  is_empty, ℕ, ◌+◌, Bool, true, false, not, ◌||◌, Option, none, some, List, [], ◌∷◌, if◌then◌else◌,
  length, ◌==◌, modify, Try, ok, raise,
}
use ai_api.Models.{Text, Instant}
use ai_api.Notifications.{NotificationConfigStatus, NotificationOutcome, NotificationConfig, Crypto}
use ai_api.Notifications.Tables.{
  NotificationDedupBucket, Connection, Outbox, SmtpResult, classify_send, classify_test,
  dedup_window, active_bucket, bucket_key, count_event, answered, raised,
}

-- `_persist_and_return_result`
abbrev persist : ℕ → Instant → Text → NotificationOutcome → List Text → Option ℕ → Outbox → Outbox
persist id now event outcome recipients bucket st = record st {
  records =
      record {
        id = id;
        event_type = event;
        dedup_bucket_id = bucket;
        outcome = outcome;
        recipients = recipients;
        created_at = now;
      }
      ∷ st.records;
}

-- the outcome of a mail to a number of recipients
unfoldable pub send_outcome : ℕ → SmtpResult → NotificationOutcome
unfolding classify_send
send_outcome recipients (raised e) = classify_send e
send_outcome recipients (answered []) = NotificationOutcome.sent
send_outcome recipients (answered (r ∷ errors)) =
    if length (r ∷ errors) == recipients
    then NotificationOutcome.send_failed_all_recipients
    else NotificationOutcome.sent

abbrev pub open_bucket : ℕ → ℕ → Instant → Text → NotificationDedupBucket
open_bucket id record_id now event = record {
  id = id;
  event_type = event;
  window_start = now;
  window_end = now + dedup_window;
  event_count = 1;
  primary_record_id = some record_id;
  last_event_at = now;
}

-- an event that comes first in its window: its bucket, its mail and its record
abbrev send_alert : ℕ → ℕ → Instant → Text → SmtpResult → NotificationConfig → Outbox → Outbox
send_alert id record_id now event result cfg st =
    persist record_id now event (send_outcome (length cfg.recipients) result) cfg.recipients
      (some id)
      (record st {
        buckets = open_bucket id record_id now event ∷ st.buckets;
        alerts = record { event_type = event; at = now } ∷ st.alerts;
      })

-- an event whose window is open in a bucket, or in none
unfoldable pub notify_gated :
    ℕ
    → ℕ
    → Instant
    → Text
    → SmtpResult
    → NotificationConfig
    → Option NotificationDedupBucket
    → Outbox
    → Outbox
unfolding send_outcome count_event
notify_gated id record_id now event result cfg none st =
    send_alert id record_id now event result cfg st
notify_gated id record_id now event result cfg (some b) st =
    persist record_id now event NotificationOutcome.suppressed [] (some b.id)
      (record st { buckets = modify bucket_key b.id (count_event now) st.buckets })

abbrev pub is_invalid : NotificationConfigStatus → Bool
is_invalid NotificationConfigStatus.credentials_invalid = true
is_invalid _ = false

abbrev pub with_status : NotificationConfigStatus → NotificationConfig → NotificationConfig
with_status status cfg = record cfg { status = status }

-- `notify` with a password, or none that decrypts
unfoldable pub notify_ready :
    ℕ → ℕ → Instant → Text → SmtpResult → NotificationConfig → Option Text → Outbox → Outbox
unfolding notify_gated active_bucket
notify_ready id record_id now event result cfg none st =
    persist record_id now event NotificationOutcome.skipped_disabled [] none
      (record st { config = some (with_status NotificationConfigStatus.credentials_invalid cfg) })
notify_ready id record_id now event result cfg (some password) st =
    notify_gated id record_id now event result cfg (active_bucket now event st.buckets) st

-- `notify` of a configuration, or none
unfoldable pub notify_with :
    Crypto → ℕ → ℕ → Instant → Text → SmtpResult → Option NotificationConfig → Outbox → Outbox
unfolding notify_ready
notify_with crypto id record_id now event result none st =
    persist record_id now event NotificationOutcome.skipped_disabled [] none st
notify_with crypto id record_id now event result (some cfg) st =
    if not cfg.enabled || is_invalid cfg.status
    then persist record_id now event NotificationOutcome.skipped_disabled [] none st
    else if is_empty cfg.recipients
    then persist record_id now event NotificationOutcome.skipped_no_recipients [] none st
    else notify_ready id record_id now event result cfg
        (crypto.decrypt_str cfg.smtp_password_encrypted) st

-- `notify`, for fresh ids of a bucket and of a record
unfoldable pub notify : Crypto → ℕ → ℕ → Instant → Text → SmtpResult → Outbox → Outbox
unfolding notify_with
notify crypto id record_id now event result st =
    notify_with crypto id record_id now event result st.config st

unfoldable pub test_outcome : SmtpResult → NotificationOutcome
unfolding classify_test
test_outcome (raised e) = classify_test e
test_outcome (answered []) = NotificationOutcome.test_sent
test_outcome (answered (_ ∷ _)) = NotificationOutcome.test_failed_recipient

-- the status after a test
unfoldable pub status_after :
    NotificationOutcome → NotificationConfigStatus → NotificationConfigStatus
status_after NotificationOutcome.test_sent _ = NotificationConfigStatus.verified
status_after NotificationOutcome.test_failed_auth _ = NotificationConfigStatus.credentials_invalid
status_after _ status = status

abbrev pub connection : NotificationConfig → Connection
connection cfg = record {
  host = cfg.smtp_host;
  port = cfg.smtp_port;
  username = cfg.smtp_username;
  password_encrypted = cfg.smtp_password_encrypted;
}

abbrev pub judge : Instant → NotificationOutcome → NotificationConfig → NotificationConfig
judge now outcome cfg = record cfg {
  status = status_after outcome cfg.status;
  last_test_at = some now;
  last_test_outcome = some outcome;
}

-- "test_send", the type of an event in the record of a test
abbrev test_event : Text
test_event = b't' ∷ b'e' ∷ b's' ∷ b't' ∷ b'_' ∷ b's' ∷ b'e' ∷ b'n' ∷ b'd' ∷ []

-- the ValueError of a test without a configuration
pub data TestError : Type 0 where
  not_set : TestError

-- `test_send` with a password, or none that decrypts
unfoldable pub send_test :
    ℕ
    → Instant
    → Text
    → SmtpResult
    → NotificationConfig
    → Option Text
    → Outbox
    → Try TestError NotificationOutcome × Outbox
unfolding status_after test_outcome
send_test record_id now recipient result cfg none st = (
  ok NotificationOutcome.test_failed_unknown,
  persist record_id now test_event NotificationOutcome.test_failed_unknown (recipient ∷ []) none
      (record st { config = some (with_status NotificationConfigStatus.credentials_invalid cfg) }),
)
send_test record_id now recipient result cfg (some password) st = (
  ok (test_outcome result),
  persist record_id now test_event (test_outcome result) (recipient ∷ []) none (record st {
    config = some (judge now (test_outcome result) cfg);
    attempts = record { connection = connection cfg; answer = result } ∷ st.attempts;
  }),
)

unfoldable pub test_with :
    Crypto
    → ℕ
    → Instant
    → Text
    → SmtpResult
    → Option NotificationConfig
    → Outbox
    → Try TestError NotificationOutcome × Outbox
unfolding send_test
test_with crypto record_id now recipient result none st = (raise TestError.not_set, st)
test_with crypto record_id now recipient result (some cfg) st =
    send_test record_id now recipient result cfg (crypto.decrypt_str cfg.smtp_password_encrypted) st

-- `test_send`: the outcome
unfoldable pub test_send :
    Crypto → ℕ → Instant → Text → SmtpResult → Outbox → Try TestError NotificationOutcome × Outbox
unfolding test_with
test_send crypto record_id now recipient result st =
    test_with crypto record_id now recipient result st.config st
