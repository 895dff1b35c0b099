-- ===== src/Notifications/Tables.antt =====
-- The tables of src/ai_api/services/notifier_email.py, what its mail server answers, and the windows in which
-- events of one type are told once.
use ai_api.Base.{
  ℕ, ◌+◌, ◌*◌, Bool, ◌&&◌, Option, none, some, List, [], ◌∷◌, if◌then◌else◌, ltb, leb, text_eq,
}
use ai_api.Models.{Text, Instant, second}
use ai_api.Notifications.{NotificationOutcome, NotificationConfig}

pub record NotificationDedupBucket : Type 0 where
  pub id : ℕ
  pub event_type : Text
  pub window_start : Instant
  pub window_end : Instant
  pub event_count : ℕ
  pub primary_record_id : Option ℕ
  pub last_event_at : Instant

pub record NotificationRecord : Type 0 where
  pub id : ℕ
  pub event_type : Text
  pub dedup_bucket_id : Option ℕ
  pub outcome : NotificationOutcome
  pub recipients : List Text
  pub created_at : Instant

-- a mail about an event that was handed to the mail server
pub record Alert : Type 0 where
  pub event_type : Text
  pub at : Instant

-- what a mail is sent by: host, port, user and encrypted password
pub record Connection : Type 0 where
  pub host : Text
  pub port : ℕ
  pub username : Text
  pub password_encrypted : Text

-- the classes of an exception that are told apart, in their order
pub data SmtpError : Type 0 where
  authentication_error sender_refused recipients_refused connection_error other_error : SmtpError

-- `_smtp_send`: the recipients that were rejected, each once, or an exception
pub data SmtpResult : Type 0 where
  answered : List Text → SmtpResult
  raised : SmtpError → SmtpResult

-- an exchange of a test mail with the server: by which connection, and what it answered
pub record Attempt : Type 0 where
  pub connection : Connection
  pub answer : SmtpResult

-- the tables, with the record of what mail servers have been handed: the mails about events, and each exchange of
-- a test mail
pub record Outbox : Type 0 where
  pub config : Option NotificationConfig
  pub buckets : List NotificationDedupBucket
  pub records : List NotificationRecord
  pub alerts : List Alert
  pub attempts : List Attempt

abbrev pub empty_outbox : Outbox
empty_outbox = record { config = none; buckets = []; records = []; alerts = []; attempts = [] }

-- `classify_smtp_exception` in mode "send"
unfoldable pub classify_send : SmtpError → NotificationOutcome
classify_send SmtpError.authentication_error = NotificationOutcome.send_failed_auth
classify_send SmtpError.sender_refused = NotificationOutcome.send_failed_sender
classify_send SmtpError.recipients_refused = NotificationOutcome.send_failed_all_recipients
classify_send SmtpError.connection_error = NotificationOutcome.send_failed_connect
classify_send SmtpError.other_error = NotificationOutcome.send_failed_unknown

-- `classify_smtp_exception` in mode "test"
unfoldable pub classify_test : SmtpError → NotificationOutcome
classify_test SmtpError.authentication_error = NotificationOutcome.test_failed_auth
classify_test SmtpError.sender_refused = NotificationOutcome.test_failed_sender
classify_test SmtpError.recipients_refused = NotificationOutcome.test_failed_recipient
classify_test SmtpError.connection_error = NotificationOutcome.test_failed_connect
classify_test SmtpError.other_error = NotificationOutcome.test_failed_unknown

abbrev pub dedup_window : ℕ
dedup_window = 5 * 60 * second

-- `window_end > now`, of an event's type
abbrev pub is_active_for : Instant → Text → NotificationDedupBucket → Bool
is_active_for now event b = text_eq b.event_type event && ltb now b.window_end

abbrev later_bucket :
    NotificationDedupBucket → Option NotificationDedupBucket → NotificationDedupBucket
later_bucket b none = b
later_bucket b (some d) = if leb d.window_start b.window_start then b else d

-- `ORDER BY window_start DESC LIMIT 1`
unfoldable pub active_bucket :
    Instant → Text → List NotificationDedupBucket → Option NotificationDedupBucket
active_bucket now event [] = none
active_bucket now event (b ∷ buckets) =
    let rest = active_bucket now event buckets in
    if is_active_for now event b then some (later_bucket b rest) else rest

abbrev pub bucket_key : NotificationDedupBucket → ℕ
bucket_key b = b.id

unfoldable pub count_event : Instant → NotificationDedupBucket → NotificationDedupBucket
count_event now b = record b { event_count = b.event_count + 1; last_event_at = now }
