-- ===== src/Notifications/Verified.antt =====
-- What the status of a configuration says, over notifications.py and notifier_email.py.
use mathlib.Core.Path.{subst}
use ai_api.Base.{
  ℕ, ◌≡◌, ◌∙◌, inl, inr, Bool, true, false, Option, none, some, List, [], ◌∷◌, arith, any, text_eq,
  text_eq_sound, text_eq_refl, ◌==◌, ◌&&◌, Bool-cases,
}
use ai_api.Models.{Text, Instant}
use ai_api.Notifications.{
  Crypto, ConfigForm, NotificationConfig, NotificationConfigStatus, same_connection,
  encrypted_password, normalize_password, validate, write_config, save_encrypted, save_checked,
  save, edited, ConfigError,
}
use ai_api.Notifications.Tables.{
  Outbox, Attempt, SmtpResult, SmtpError, answered, raised, classify_test, empty_outbox,
}
use ai_api.Notifications.Mailer.{connection, status_after, test_outcome}
use ai_api.Notifications.Effects.{IsKept, run_all-kept}
use ai_api.Notifications.Calls.{Call, run_all}

abbrev is_verified : NotificationConfigStatus → Bool
is_verified NotificationConfigStatus.verified = true
is_verified _ = false

-- whether the server took a mail: it raised nothing and refused no recipient
abbrev pub took : SmtpResult → Bool
took (answered []) = true
took (answered (_ ∷ _)) = false
took (raised _) = false

-- whether the server took a test mail that was sent by a connection
unfoldable pub reached : Text → ℕ → Text → Text → List Attempt → Bool
reached host port username encrypted attempts =
    any
      (λ a.
        took a.answer
        && text_eq host a.connection.host
        && (port == a.connection.port)
        && text_eq username a.connection.username
        && text_eq encrypted a.connection.password_encrypted)
      attempts

abbrev reached_by : NotificationConfig → List Attempt → Bool
reached_by cfg attempts =
    reached cfg.smtp_host cfg.smtp_port cfg.smtp_username cfg.smtp_password_encrypted attempts

-- a verified configuration has the host, port, user and password of a test mail that the server took
abbrev pub IsTested : Option NotificationConfig → List Attempt → Type 0
IsTested none attempts = Unit
IsTested (some cfg) attempts = is_verified cfg.status ≡ true → reached_by cfg attempts ≡ true

-- an edit that keeps the connection
reached-edited :
    (now : Instant) (encrypted : Text) (form : ConfigForm) (cfg : NotificationConfig)
    (attempts : List Attempt)
    → same_connection cfg encrypted form ≡ true
    → reached_by (edited now encrypted form cfg) attempts ≡ reached_by cfg attempts
reached-edited now encrypted form cfg attempts kept = cc (
  text_eq_sound cfg.smtp_host form.smtp_host (ground (arith, kept)),
  text_eq_sound cfg.smtp_username form.smtp_username (ground (arith, kept)),
  text_eq_sound cfg.smtp_password_encrypted encrypted (ground (arith, kept)),
  port,
)
  where
    port : cfg.smtp_port ≡ form.smtp_port
    port = ground (arith, kept)

IsTested-write_config :
    (now : Instant) (encrypted : Text) (form : ConfigForm) (config : Option NotificationConfig)
    (attempts : List Attempt)
    → IsTested config attempts
    → IsTested (some (write_config now encrypted form config)) attempts
unfolding write_config
IsTested-write_config now encrypted form none attempts h = λ v. ground (arith, v)
IsTested-write_config now encrypted form (some cfg) attempts h =
    elim (Bool-cases (same_connection cfg encrypted form)) [
      | inl kept ↦ rw kept (λ v. reached-edited now encrypted form cfg attempts kept ∙ h v)
      | inr changed ↦ rw changed (λ v. ground (arith, v))
    ]

IsTested-save_encrypted :
    (now : Instant) (form : ConfigForm) (password : Option Text)
    (config : Option NotificationConfig) (attempts : List Attempt)
    → IsTested config attempts
    → IsTested (save_encrypted now form password config).1 attempts
unfolding save_encrypted
IsTested-save_encrypted now form none config attempts h = h
IsTested-save_encrypted now form (some encrypted) config attempts h =
    IsTested-write_config now encrypted form config attempts h

IsTested-save_checked :
    (crypto : Crypto) (nonce : ℕ) (now : Instant) (form : ConfigForm) (invalid : Option ConfigError)
    (config : Option NotificationConfig) (attempts : List Attempt)
    → IsTested config attempts
    → IsTested (save_checked crypto nonce now form invalid config).1 attempts
unfolding save_checked
IsTested-save_checked crypto nonce now form (some e) config attempts h = h
IsTested-save_checked crypto nonce now form none config attempts h =
    IsTested-save_encrypted now form
      (encrypted_password crypto nonce (normalize_password form.smtp_password) config) config
      attempts h

-- a test that makes a configuration verified is one that the server took
reached-judged :
    (result : SmtpResult) (cfg : NotificationConfig) (attempts : List Attempt)
    → (is_verified cfg.status ≡ true → reached_by cfg attempts ≡ true)
    → is_verified (status_after (test_outcome result) cfg.status) ≡ true
    → reached_by cfg (record { connection = connection cfg; answer = result } ∷ attempts) ≡ true
unfolding status_after test_outcome classify_test reached
reached-judged (answered []) cfg attempts h v = ground (
  arith,
  text_eq_refl cfg.smtp_host,
  text_eq_refl cfg.smtp_username,
  text_eq_refl cfg.smtp_password_encrypted,
)
reached-judged (answered (_ ∷ _)) cfg attempts h v = h v
reached-judged (raised SmtpError.authentication_error) cfg attempts h v = ground (arith, v)
reached-judged (raised SmtpError.sender_refused) cfg attempts h v = h v
reached-judged (raised SmtpError.recipients_refused) cfg attempts h v = h v
reached-judged (raised SmtpError.connection_error) cfg attempts h v = h v
reached-judged (raised SmtpError.other_error) cfg attempts h v = h v

abbrev TestedOutbox : Outbox → Type 0
TestedOutbox st = IsTested st.config st.attempts

IsTested-IsKept : (crypto : Crypto) → IsKept crypto TestedOutbox
unfolding save
IsTested-IsKept crypto = record {
  recorded = λ rows st h. h;
  saved = λ nonce now form st h.
      IsTested-save_checked crypto nonce now form (validate form) st.config st.attempts h;
  deleted = λ st h. tt;
  invalidated = λ cfg st h v. ground (arith, v);
  counted = λ id now st h. h;
  alerted = λ id record_id now event st none_open h. h;
  judged = λ now result cfg st set h v.
      reached-judged result cfg st.attempts (subst (λ c. IsTested c st.attempts) set h) v;
}

-- A configuration that is shown as verified has worked: after whatever sequence of calls from an empty database, where
-- its status is verified, the server took a test mail, refusing no recipient, that was sent by its host, port, user
-- and password as they now are.
pub verified_works :
    (crypto : Crypto) (calls : List Call)
    → IsTested
        (run_all crypto calls empty_outbox).config
        (run_all crypto calls empty_outbox).attempts
verified_works crypto calls =
    run_all-kept TestedOutbox (IsTested-IsKept crypto) calls empty_outbox tt
