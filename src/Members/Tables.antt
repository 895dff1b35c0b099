-- ===== src/Members/Tables.antt =====
-- The rows that src/ai_api/services/members.py reads and writes.
use ai_api.Base.{ℕ, Bool, true, false, some, List, [], ◌∷◌, ◌++◌}
use ai_api.Models.{Member, CallRecord, ActorType}
use ai_api.Models.Events.{AuditEventType}
use ai_api.Allocations.{Store}
use ai_api.Access.ModelAccess.{MemberTag}
use ai_api.Sessions.{Session}
use ai_api.Invitations.{InvitationToken}
use ai_api.TagRules.{TagRule}

pub data MemberProvider : Type 0 where
  google_oidc local_password external : MemberProvider

abbrev pub is_local : MemberProvider → Bool
is_local MemberProvider.local_password = true
is_local _ = false

-- the tables that the service writes
pub record MemberDb : Type 0 where
  pub store : Store
  pub call_records : List CallRecord
  pub sessions : List Session
  pub invitations : List InvitationToken
  pub member_tags : List MemberTag
  pub tag_rules : List TagRule

-- `MemberAlreadyExists`, `LastAdminCannotDemoteError`, `CannotDeleteSelfError`,
-- `LastAdminCannotDeleteError` and `ValueError`
pub data MemberError : Type 0 where
  already_exists last_admin_cannot_demote cannot_delete_self last_admin_cannot_delete value_error :
      MemberError

abbrev members_of : MemberDb → List Member
members_of db = db.store.members

unfoldable pub with_members : List Member → MemberDb → MemberDb
with_members members db = record db { store = record db.store { members = members } }

-- `audit.record` on a member
unfoldable pub with_audit : AuditEventType → ℕ → MemberDb → MemberDb
with_audit event member db = record db {
  store = record db.store {
    audit_log =
        db.store.audit_log
        ++ record { event_type = event; actor_type = ActorType.admin; target_id = some member }
          ∷ [];
  };
}
