-- ===== src/Invitations/Tests.antt =====
-- An invitation that is used, with the length of a token for its fingerprint.
use ai_api.Base.{◌≡◌, refl, ℕ, false, none, some, List, [], ◌∷◌, length}
use ai_api.Models.{Text, Member, MemberStatus}
use ai_api.Invitations.{InvitationToken, consume, lookup_invitation, consume_found, use_token}
use ai_api.Invitations.SingleUse.{issue_call, consume_call, run_all, invitation_used_once}

abbrev digest : Text → ℕ
digest = length

abbrev token : Text
token = b'a' ∷ b'b' ∷ []

abbrev member : Member
member = record { id = 7; email = b'e' ∷ []; status = MemberStatus.active; is_admin = false }

abbrev invited : List InvitationToken
invited =
    record {
      token_fingerprint = 2;
      member_id = 7;
      created_at = 100;
      expires_at = 5000;
      used_at = none;
    }
    ∷ []

accepted : (consume digest token 200 (member ∷ []) invited).0 ≡ some member
unfolding consume lookup_invitation consume_found use_token
accepted = refl

too_late : (consume digest token 5000 (member ∷ []) invited).0 ≡ none
unfolding consume lookup_invitation consume_found use_token
too_late = refl

invitation_used_once_example :
    (consume digest token 900 (member ∷ []) (
      run_all digest
        (issue_call 5 7 300 ∷ consume_call token 400 (member ∷ []) ∷ [])
        (consume digest token 200 (member ∷ []) invited).1)).0
    ≡ none
invitation_used_once_example =
    invitation_used_once digest token 200 900 (member ∷ []) (member ∷ [])
      (issue_call 5 7 300 ∷ consume_call token 400 (member ∷ []) ∷ []) invited member accepted
      (refl, (tt, tt))
