-- ===== src/Members/SignedOut.antt =====
-- The sessions of a member whom src/ai_api/services/members.py disables.
use ai_api.Base.{
  ℕ, ◌≡◌, refl, ap, ◌∙◌, sym, true, false, none, some, List, arith, All, get, ◌==◌, ok,
}
use mathlib.Core.Path.{subst}
use ai_api.Models.{Text, Instant, Member, MemberStatus}
use ai_api.Allocations.{member_key}
use ai_api.Sessions.{validate_session, revoke_all_for_member, member_disabled_reason}
use ai_api.Sessions.Ending.{
  Call, run_all, CreatesOther, ended_for_good, Ended-revoke_all_for_member,
}
use ai_api.Members.{same_status, set_status, update}
use ai_api.Members.Tables.{MemberDb, with_members}

update_disabled :
    (now : Instant) (id : ℕ) (db : MemberDb) (m : Member)
    → get member_key id db.store.members ≡ some m
    → same_status MemberStatus.disabled m.status ≡ false
    → (update now id (some MemberStatus.disabled) db).1 ≡ set_status now id MemberStatus.disabled db
unfolding update
update_disabled now id db m found differs = rw (found, differs, update) refl

sessions-set_status :
    (now : Instant) (id : ℕ) (db : MemberDb)
    → (set_status now id MemberStatus.disabled db).sessions
      ≡ (revoke_all_for_member id member_disabled_reason now db.sessions).1
unfolding set_status with_members
sessions-set_status now id db = refl

-- A member who is disabled is signed out for good: after an active member has been disabled, and after
-- whatever sign-ins under other fingerprints, validations, sign-outs and revocations, also when the member
-- is enabled again, each token whose sessions are the member's is refused.
pub disabled_signed_out :
    (fingerprint : Text → ℕ) (token : Text) (now later : Instant) (id : ℕ) (m : Member)
    (members_later : List Member) (calls : List Call) (db : MemberDb)
    → get member_key id db.store.members ≡ some m
    → same_status MemberStatus.disabled m.status ≡ false
    → All (λ s. (s.id == fingerprint token) ≡ true → (s.member_id == id) ≡ true) db.sessions
    → All (CreatesOther fingerprint (fingerprint token)) calls
    → (validate_session fingerprint token later members_later
        (run_all fingerprint calls (update now id (some MemberStatus.disabled) db).1.sessions)).0
      ≡ ok none
disabled_signed_out fingerprint token now later id m members_later calls db found active own fresh =
    ended_for_good fingerprint token 0 later members_later calls
      (update now id (some MemberStatus.disabled) db).1.sessions (omega arith)
      (subst (All _)
        (sym (
          ap (λ d. d.sessions) (update_disabled now id db m found active)
          ∙ sessions-set_status now id db))
        (Ended-revoke_all_for_member (fingerprint token) id member_disabled_reason now db.sessions
          own))
      fresh
