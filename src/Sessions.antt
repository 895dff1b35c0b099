-- ===== src/Sessions.antt =====
-- src/ai_api/auth/sessions.py: the sessions of signed-in members. The SHA-256 of a token is an argument,
-- and so are fresh tokens and the present instant. The address and the browser of a session are left out.
pub mod Ending
mod Tests
use ai_api.Base.{
  ℕ, ◌+◌, ◌*◌, Bool, true, false, Option, none, some, List, [], ◌∷◌, ◌++◌, if◌then◌else◌, leb, ◌==◌,
  ◌&&◌, ◌||◌, get, modify, update_where, filter, length, Try, ok, raise,
}
use ai_api.Models.{Text, Instant, second, Member, member_is_active}
use ai_api.Allocations.{member_key}

pub data SessionStatus : Type 0 where
  active revoked : SessionStatus

abbrev pub session_is_active : SessionStatus → Bool
session_is_active SessionStatus.active = true
session_is_active SessionStatus.revoked = false

-- `id` is the fingerprint of the token
pub record Session : Type 0 where
  pub id : ℕ
  pub member_id : ℕ
  pub created_at : Instant
  pub last_seen_at : Instant
  pub expires_at : Instant
  pub idle_timeout_at : Instant
  pub status : SessionStatus
  pub revoked_at : Option Instant
  pub revoked_reason : Option Text

abbrev pub session_id : Session → ℕ
session_id s = s.id

abbrev pub default_lifetime : ℕ
default_lifetime = 24 * 60 * 60 * second

abbrev pub default_idle : ℕ
default_idle = 2 * 60 * 60 * second

unfoldable pub new_session : ℕ → ℕ → ℕ → ℕ → Instant → Session
new_session fingerprint member lifetime idle_timeout now = record {
  id = fingerprint;
  member_id = member;
  created_at = now;
  last_seen_at = now;
  expires_at = now + lifetime;
  idle_timeout_at = now + idle_timeout;
  status = SessionStatus.active;
  revoked_at = none;
  revoked_reason = none;
}

-- `create_session`
unfoldable pub create_session : ℕ → ℕ → ℕ → ℕ → Instant → List Session → List Session
unfolding new_session
create_session fingerprint member lifetime idle_timeout now rows =
    rows ++ new_session fingerprint member lifetime idle_timeout now ∷ []

unfoldable pub revoke_row : Text → Instant → Session → Session
revoke_row reason now s = record s {
  status = SessionStatus.revoked;
  revoked_at = some now;
  revoked_reason = some reason;
}

unfoldable pub touch : Instant → Session → Session
touch now s = record s { last_seen_at = now; idle_timeout_at = now + default_idle }

-- "member_disabled"
abbrev pub member_disabled_reason : Text
member_disabled_reason =
    b'm' ∷ b'e' ∷ b'm' ∷ b'b' ∷ b'e' ∷ b'r' ∷ b'_' ∷ b'd' ∷ b'i' ∷ b's' ∷ b'a' ∷ b'b' ∷ b'l' ∷ b'e'
    ∷ b'd' ∷ []

-- The session row without a member: `record.member` is None, and its status an AttributeError.
pub data SessionError : Type 0 where
  attribute_error : SessionError

unfoldable pub in_time : Instant → Session → Bool
in_time now s =
    session_is_active s.status
    && ((if leb s.expires_at now then false else true)
        && (if leb s.idle_timeout_at now then false else true))

-- the end of `validate_session`, for a session in time
unfoldable pub admit :
    Instant
    → Session
    → Option Member
    → List Session
    → Try SessionError (Option Member) × List Session
unfolding revoke_row touch
admit now s none rows = (raise attribute_error, rows)
admit now s (some member) rows =
    if member_is_active member.status
    then (ok (some member), modify session_id s.id (touch now) rows)
    else (ok none, modify session_id s.id (revoke_row member_disabled_reason now) rows)

module _ (fingerprint : Text → ℕ) where
  -- `lookup_session`
  unfoldable pub lookup_session : Text → List Session → Option Session
  lookup_session [] rows = none
  lookup_session (c ∷ token) rows = get session_id (fingerprint (c ∷ token)) rows

  -- `validate_session`
  unfoldable pub validate_session :
      Text → Instant → List Member → List Session → Try SessionError (Option Member) × List Session
  unfolding lookup_session in_time admit
  validate_session token now members rows = elim (lookup_session token rows) [
    | none ↦ (ok none, rows)
    | some s ↦
        if in_time now s
        then admit now s (get member_key s.member_id members) rows
        else (ok none, rows)
  ]

  -- `revoke_session`
  unfoldable pub revoke_session : Text → Text → Instant → List Session → List Session
  unfolding revoke_row
  revoke_session token reason now =
      update_where (λ s. s.id == fingerprint token && session_is_active s.status)
        (revoke_row reason now)

abbrev pub active_of : ℕ → Session → Bool
active_of member s = s.member_id == member && session_is_active s.status

-- `revoke_all_for_member`, with the number of rows that it changed
unfoldable pub revoke_all_for_member : ℕ → Text → Instant → List Session → ℕ × List Session
unfolding revoke_row
revoke_all_for_member member reason now rows = (
  length (filter (active_of member) rows),
  update_where (active_of member) (revoke_row reason now) rows,
)
