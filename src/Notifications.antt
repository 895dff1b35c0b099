-- ===== src/Notifications.antt =====
-- src/ai_api/services/notifications.py: the mail server that administrators configure, and where it is known to
-- work. Encryption is an argument, and so are the present instant and what makes two ciphertexts differ. The text
-- of the last error of a test is left out.
pub mod Tables
pub mod Mailer
pub mod Calls
pub mod Effects
pub mod Spacing
pub mod Verified
pub mod History
pub mod HistoryPages
mod Tests
use ai_api.Base.{
  is_empty, ℕ, Bool, true, false, not, ◌&&◌, ◌||◌, Option, none, some, List, [], ◌∷◌, filter, any,
  if◌then◌else◌, leb, ◌==◌, text_eq, Try, ok, raise,
}
use ai_api.Models.{Text, Instant}
use ai_api.Base.Strings.{strip, is_space}

pub data NotificationConfigStatus : Type 0 where
  pending_test verified credentials_invalid : NotificationConfigStatus

pub data NotificationOutcome : Type 0 where
  sent suppressed skipped_disabled skipped_no_recipients : NotificationOutcome
  send_failed_auth send_failed_connect send_failed_sender : NotificationOutcome
  send_failed_all_recipients send_failed_unknown : NotificationOutcome
  test_sent test_failed_auth test_failed_connect test_failed_sender : NotificationOutcome
  test_failed_recipient test_failed_unknown : NotificationOutcome

pub record NotificationConfig : Type 0 where
  pub smtp_host : Text
  pub smtp_port : ℕ
  pub smtp_username : Text
  pub smtp_password_encrypted : Text
  pub sender_email : Text
  pub sender_name : Text
  pub recipients : List Text
  pub enabled : Bool
  pub status : NotificationConfigStatus
  pub last_test_at : Option Instant
  pub last_test_outcome : Option NotificationOutcome
  pub created_at : Instant
  pub updated_at : Instant
  pub created_by : Text

-- what is relied on of crypto.py: a ciphertext, that a random number makes fresh, and its plaintext, or an error
pub record Crypto : Type 0 where
  pub encrypt_str : ℕ → Text → Text
  pub decrypt_str : Text → Option Text

-- the arguments of `save`
pub record ConfigForm : Type 0 where
  pub smtp_host : Text
  pub smtp_port : ℕ
  pub smtp_username : Text
  pub smtp_password : Text
  pub sender_email : Text
  pub sender_name : Text
  pub recipients : List Text
  pub enabled : Bool
  pub created_by : Option Text

-- NotificationConfigValidationError, by its message
pub data ConfigError : Type 0 where
  host_empty port_range username_empty sender_invalid recipient_invalid : ConfigError
  password_required : ConfigError

abbrev is_plain : ℕ → Bool
is_plain c = not (is_space c || c == b'@')

abbrev all_plain : Text → Bool
all_plain s = not (any (λ c. not (is_plain c)) s)

-- whether a `.` has something behind it
pub dot_within : Text → Bool
dot_within [] = false
dot_within (c ∷ s) = let rest = dot_within s in (c == b'.' && not (is_empty s)) || rest

-- `[^\s@]+\.[^\s@]+`
pub is_domain : Text → Bool
is_domain [] = false
is_domain (c ∷ s) = all_plain (c ∷ s) && dot_within s

-- `[^\s@]+@` before a domain, where `seen` tells that it has begun
pub is_address : Bool → Text → Bool
is_address seen [] = false
is_address seen (c ∷ s) =
    let rest = is_address true s in
    if c == b'@' then seen && is_domain s else not (is_space c) && rest

-- `$` matches before a trailing line feed as well
pub drop_line_feed : Text → Text
drop_line_feed [] = []
drop_line_feed (c ∷ s) =
    let rest = drop_line_feed s in if c == 10 && is_empty s then [] else c ∷ rest

-- `_EMAIL_RE.match(addr)`
pub is_email : Text → Bool
is_email addr = is_address false (drop_line_feed addr)

-- `_normalize_password`
unfoldable pub normalize_password : Text → Text
normalize_password raw = filter (λ c. not (is_space c)) raw

-- the checks of `save` before it reads the row
unfoldable pub validate : ConfigForm → Option ConfigError
unfolding is_space is_email is_address is_domain dot_within drop_line_feed strip
validate form =
    if is_empty (strip form.smtp_host)
    then some ConfigError.host_empty
    else if not (leb 1 form.smtp_port && leb form.smtp_port 65535)
    then some ConfigError.port_range
    else if is_empty (strip form.smtp_username)
    then some ConfigError.username_empty
    else if not (is_email form.sender_email)
    then some ConfigError.sender_invalid
    else if any (λ r. not (is_email r)) form.recipients
    then some ConfigError.recipient_invalid
    else none

abbrev previous_password : Option NotificationConfig → Option Text
previous_password none = none
previous_password (some cfg) = some cfg.smtp_password_encrypted

-- a blank password keeps the one that is stored
abbrev encrypted_password : Crypto → ℕ → Text → Option NotificationConfig → Option Text
encrypted_password crypto nonce password existing =
    if is_empty password
    then previous_password existing
    else some (crypto.encrypt_str nonce password)

-- "AI API Manager" and `BOOTSTRAP_ADMIN`
abbrev default_sender : Text
default_sender =
    b'A' ∷ b'I' ∷ b' ' ∷ b'A' ∷ b'P' ∷ b'I' ∷ b' ' ∷ b'M' ∷ b'a' ∷ b'n' ∷ b'a' ∷ b'g' ∷ b'e' ∷ b'r'
    ∷ []

abbrev bootstrap_admin : Text
bootstrap_admin =
    b'b' ∷ b'o' ∷ b'o' ∷ b't' ∷ b's' ∷ b't' ∷ b'r' ∷ b'a' ∷ b'p' ∷ b'-' ∷ b'a' ∷ b'd' ∷ b'm' ∷ b'i'
    ∷ b'n' ∷ []

-- `a or b` of texts
abbrev text_or : Text → Text → Text
text_or [] other = other
text_or (c ∷ s) other = c ∷ s

abbrev creator : Option Text → Text
creator none = bootstrap_admin
creator (some s) = text_or s bootstrap_admin

-- the row of a first save
abbrev new_config : Instant → Text → ConfigForm → NotificationConfig
new_config now encrypted form = record {
  smtp_host = form.smtp_host;
  smtp_port = form.smtp_port;
  smtp_username = form.smtp_username;
  smtp_password_encrypted = encrypted;
  sender_email = form.sender_email;
  sender_name = text_or form.sender_name default_sender;
  recipients = form.recipients;
  enabled = form.enabled;
  status = NotificationConfigStatus.pending_test;
  last_test_at = none;
  last_test_outcome = none;
  created_at = now;
  updated_at = now;
  created_by = creator form.created_by;
}

-- `connectivity_changed`, negated
abbrev same_connection : NotificationConfig → Text → ConfigForm → Bool
same_connection cfg encrypted form =
    text_eq cfg.smtp_host form.smtp_host
    && (cfg.smtp_port == form.smtp_port)
    && text_eq cfg.smtp_username form.smtp_username
    && text_eq cfg.smtp_password_encrypted encrypted

-- the row of a later save, before its status is reset
abbrev edited : Instant → Text → ConfigForm → NotificationConfig → NotificationConfig
edited now encrypted form cfg = record cfg {
  smtp_host = form.smtp_host;
  smtp_port = form.smtp_port;
  smtp_username = form.smtp_username;
  smtp_password_encrypted = encrypted;
  sender_email = form.sender_email;
  sender_name = text_or form.sender_name default_sender;
  recipients = form.recipients;
  enabled = form.enabled;
  updated_at = now;
}

abbrev untested : NotificationConfig → NotificationConfig
untested cfg = record cfg {
  status = NotificationConfigStatus.pending_test;
  last_test_at = none;
  last_test_outcome = none;
}

unfoldable pub write_config :
    Instant → Text → ConfigForm → Option NotificationConfig → NotificationConfig
write_config now encrypted form none = new_config now encrypted form
write_config now encrypted form (some cfg) =
    if same_connection cfg encrypted form
    then edited now encrypted form cfg
    else untested (edited now encrypted form cfg)

unfoldable pub save_encrypted :
    Instant
    → ConfigForm
    → Option Text
    → Option NotificationConfig
    → Try ConfigError NotificationConfig × Option NotificationConfig
unfolding write_config
save_encrypted now form none existing = (raise ConfigError.password_required, existing)
save_encrypted now form (some encrypted) existing =
    (ok (write_config now encrypted form existing), some (write_config now encrypted form existing))

unfoldable pub save_checked :
    Crypto
    → ℕ
    → Instant
    → ConfigForm
    → Option ConfigError
    → Option NotificationConfig
    → Try ConfigError NotificationConfig × Option NotificationConfig
unfolding save_encrypted normalize_password
save_checked crypto nonce now form (some e) existing = (raise e, existing)
save_checked crypto nonce now form none existing =
    save_encrypted now form
      (encrypted_password crypto nonce (normalize_password form.smtp_password) existing) existing

-- `save`
unfoldable pub save :
    Crypto
    → ℕ
    → Instant
    → ConfigForm
    → Option NotificationConfig
    → Try ConfigError NotificationConfig × Option NotificationConfig
unfolding validate save_checked
save crypto nonce now form existing = save_checked crypto nonce now form (validate form) existing
