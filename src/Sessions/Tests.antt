-- ===== src/Sessions/Tests.antt =====
-- A session that is signed out, with the length of a token for its fingerprint.
use ai_api.Base.{◌≡◌, refl, ℕ, false, none, some, List, [], ◌∷◌, length, ok}
use ai_api.Models.{Text, Member, MemberStatus}
use ai_api.Sessions.{
  Session, SessionStatus, revoke_session, revoke_row, validate_session, lookup_session, in_time,
  admit,
}

abbrev digest : Text → ℕ
digest = length

abbrev token : Text
token = b'a' ∷ b'b' ∷ []

abbrev member : Member
member = record { id = 7; email = b'e' ∷ []; status = MemberStatus.active; is_admin = false }

abbrev signed_in : List Session
signed_in =
    record {
      id = 2;
      member_id = 7;
      created_at = 100;
      last_seen_at = 100;
      expires_at = 5000;
      idle_timeout_at = 2000;
      status = SessionStatus.active;
      revoked_at = none;
      revoked_reason = none;
    }
    ∷ []

abbrev signed_out : List Session
signed_out =
    record {
      id = 2;
      member_id = 7;
      created_at = 100;
      last_seen_at = 100;
      expires_at = 5000;
      idle_timeout_at = 2000;
      status = SessionStatus.revoked;
      revoked_at = some 300;
      revoked_reason = some [];
    }
    ∷ []

stays : (validate_session digest token 200 (member ∷ []) signed_in).0 ≡ ok (some member)
unfolding validate_session lookup_session in_time admit
stays = refl

idle : (validate_session digest token 2000 (member ∷ []) signed_in).0 ≡ ok none
unfolding validate_session lookup_session in_time admit
idle = refl

signs_out : revoke_session digest token [] 300 signed_in ≡ signed_out
unfolding revoke_session revoke_row
signs_out = refl
