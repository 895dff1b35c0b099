-- ===== src/Members/Bulk.antt =====
-- The batches of src/ai_api/api/admin_members.py: members deleted, enabled or disabled one by one, each in a
-- transaction of its own.
use ai_api.Base.{
  ℕ, Bool, true, false, not, Option, none, some, List, [], ◌∷◌, map, filter, length, if◌then◌else◌,
  leb, ◌==◌, ◌&&◌, Try, ok, raise,
}
use ai_api.Models.{Instant, Member, MemberStatus, member_is_active}
use ai_api.Models.Events.{AuditEventType}
use ai_api.Allocations.{member_key}
use ai_api.Tags.{contains}
use ai_api.Members.{is_active_admin, update, delete}
use ai_api.Members.Tables.{MemberDb, MemberError, with_audit}

pub data Reason : Type 0 where
  not_found cannot_delete_own last_admin internal : Reason

-- the result for one member: done, or failed with a reason
pub record BulkResult : Type 0 where
  pub member_id : ℕ
  pub reason : Option Reason

abbrev pub delete_reason : Try MemberError Bool → Option Reason
delete_reason (ok true) = none
delete_reason (ok false) = some not_found
delete_reason (raise MemberError.cannot_delete_self) = some cannot_delete_own
delete_reason (raise MemberError.last_admin_cannot_delete) = some last_admin
delete_reason (raise _) = some internal

-- the loop of `bulk_delete_members`
unfoldable pub bulk_delete : List ℕ → Option ℕ → MemberDb → List BulkResult × MemberDb
unfolding delete
bulk_delete [] acting db = ([], db)
bulk_delete (id ∷ ids) acting db =
    let r = delete id acting db in
    let rest = bulk_delete ids acting r.1 in
    (record { member_id = id; reason = delete_reason r.0 } ∷ rest.0, rest.1)

-- the ids of the active administrators
abbrev pub active_admin_ids : List Member → List ℕ
active_admin_ids members = map member_key (filter is_active_admin members)

abbrev pub discard : ℕ → List ℕ → List ℕ
discard id ids = filter (λ n. not (n == id)) ids

abbrev pub status_event : MemberStatus → AuditEventType
status_event MemberStatus.active = AuditEventType.member_enabled
status_event MemberStatus.disabled = AuditEventType.member_disabled

-- one turn of the loop of `bulk_set_status`, with the administrators that are left
pub record Turn : Type 0 where
  pub reason : Option Reason
  pub admins : List ℕ
  pub db : MemberDb

-- the turn of a member that the guard lets through
unfoldable pub change_status : Instant → MemberStatus → ℕ → List ℕ → MemberDb → Turn
unfolding update with_audit
change_status now status id admins db =
    let r = update now id (some status) db in
    elim r.0 [
      | none ↦ record { reason = some not_found; admins = admins; db = db }
      | some _ ↦ record {
        reason = none;
        admins = if member_is_active status then admins else discard id admins;
        db = with_audit (status_event status) id r.1;
      }
    ]

unfoldable pub status_turn : Instant → MemberStatus → ℕ → List ℕ → MemberDb → Turn
unfolding change_status
status_turn now status id admins db =
    if not (member_is_active status) && (contains admins id && leb (length admins) 1)
    then record { reason = some last_admin; admins = admins; db = db }
    else change_status now status id admins db

unfoldable pub status_turns :
    Instant → MemberStatus → List ℕ → List ℕ → MemberDb → List BulkResult × MemberDb
unfolding status_turn
status_turns now status [] admins db = ([], db)
status_turns now status (id ∷ ids) admins db =
    let t = status_turn now status id admins db in
    let rest = status_turns now status ids t.admins t.db in
    (record { member_id = id; reason = t.reason } ∷ rest.0, rest.1)

-- `bulk_set_status`
unfoldable pub bulk_set_status :
    Instant → MemberStatus → List ℕ → MemberDb → List BulkResult × MemberDb
unfolding status_turns
bulk_set_status now status ids db =
    status_turns now status ids
      (if member_is_active status then [] else active_admin_ids db.store.members) db
