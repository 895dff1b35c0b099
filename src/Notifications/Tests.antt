-- ===== src/Notifications/Tests.antt =====
-- One mail server, whose password is stored as it is.
use ai_api.Base.{◌≡◌, ◌*◌, refl, ℕ, true, none, some, List, [], ◌∷◌}
use ai_api.Models.{Text, Instant, second}
use ai_api.Base.Strings.{is_space}
use ai_api.Base.Keyset.{order_rows, insert_newer, limit_rows}
use ai_api.Notifications.History.{
  CursorCodec, Filters, primary_bucket, fetched, bucket_event_count, next_cursor, list_history,
}
use ai_api.Notifications.HistoryPages.{follow, history, follow-history}
use ai_api.Notifications.Mailer.{open_bucket}
use ai_api.Notifications.{
  NotificationOutcome, Crypto, ConfigForm, is_email, is_address, is_domain, dot_within,
  drop_line_feed, normalize_password,
}
use ai_api.Notifications.Tables.{
  NotificationDedupBucket, NotificationRecord, SmtpError, answered, raised, empty_outbox,
}
use ai_api.Notifications.Calls.{Call, save_call, notify_call, test_call, run_all}
use ai_api.Notifications.Spacing.{Spaced, alert_spacing}
use ai_api.Notifications.Verified.{IsTested, verified_works}

abbrev crypto : Crypto
crypto = record { encrypt_str = λ nonce s. s; decrypt_str = λ s. some s }

abbrev address : Text
address = b'a' ∷ b'@' ∷ b'b' ∷ b'.' ∷ b'c' ∷ []

abbrev form : ConfigForm
form = record {
  smtp_host = b'h' ∷ [];
  smtp_port = 587;
  smtp_username = b'u' ∷ [];
  smtp_password = b'p' ∷ b' ' ∷ b'w' ∷ [];
  sender_email = address;
  sender_name = [];
  recipients = address ∷ [];
  enabled = true;
  created_by = none;
}

-- a test that goes through, a mail that fails, one that is suppressed and one after the window
abbrev calls : List Call
calls =
    save_call 1 0 form
    ∷ test_call 1 second address (answered [])
    ∷ notify_call 1 2 (60 * second) (b'e' ∷ []) (raised SmtpError.connection_error)
    ∷ notify_call 2 3 (61 * second) (b'e' ∷ []) (answered [])
    ∷ notify_call 3 4 (360 * second) (b'e' ∷ []) (answered [])
    ∷ []

spaces_dropped : normalize_password (b'p' ∷ b' ' ∷ b'w' ∷ []) ≡ b'p' ∷ b'w' ∷ []
unfolding normalize_password is_space
spaces_dropped = refl

line_feed_accepted : is_email (b'a' ∷ b'@' ∷ b'b' ∷ b'.' ∷ b'c' ∷ 10 ∷ []) ≡ true
unfolding is_email is_address is_domain dot_within drop_line_feed is_space
line_feed_accepted = refl

alert_spacing_example : Spaced (run_all crypto calls empty_outbox).alerts
alert_spacing_example = alert_spacing crypto calls

verified_works_example :
    IsTested (run_all crypto calls empty_outbox).config (run_all crypto calls empty_outbox).attempts
verified_works_example = verified_works crypto calls

-- a cursor as its instant and its id
abbrev codec : CursorCodec
codec = record {
  encode = λ at id. at ∷ id ∷ [];
  decode = λ s. elim s [ [] ↦ none | at ∷ t ↦ elim t [ [] ↦ none | id ∷ _ ↦ some (at, id) ] ];
}

abbrev record_of : ℕ → Instant → NotificationRecord
record_of id at = record {
  id = id;
  event_type = b'e' ∷ [];
  dedup_bucket_id = some 9;
  outcome = NotificationOutcome.sent;
  recipients = address ∷ [];
  created_at = at;
}

abbrev sent_records : List NotificationRecord
sent_records = record_of 4 100 ∷ record_of 5 100 ∷ record_of 3 200 ∷ []

abbrev no_filters : Filters
no_filters = record { event_type = none; outcome = none }

abbrev bucket : NotificationDedupBucket
bucket = open_bucket 9 4 100 (b'e' ∷ [])

second_page :
    list_history codec 2 (some (100 ∷ 5 ∷ [])) no_filters (bucket ∷ []) sent_records
    ≡ (record { row = record_of 4 100; bucket_event_count = some 1 } ∷ [], none)
unfolding list_history fetched bucket_event_count primary_bucket next_cursor order_rows insert_newer
    limit_rows
second_page = refl

follow-history_example :
    follow codec no_filters (bucket ∷ []) sent_records 2 4 none
    ≡ history codec no_filters (bucket ∷ []) sent_records
unfolding order_rows insert_newer
follow-history_example =
    follow-history codec no_filters (bucket ∷ []) sent_records (λ at id. refl)
      ((refl, (refl, tt)), ((refl, tt), (tt, tt))) 1
