-- ===== src/Members.antt =====
-- src/ai_api/services/members.py: members, their administrators' role and their removal, with the policy of
-- passwords of src/ai_api/auth/local.py. Providers, display names and password hashes are left out of a
-- member's row. Fresh ids and fingerprints and the present instant are arguments.
pub mod Creation
pub mod Tables
pub mod Bulk
pub mod Counts
pub mod LastAdmin
pub mod StatusChanges
pub mod Batches
pub mod SignedOut
pub mod References
mod Tests
use ai_api.Base.{
  is_none, ℕ, suc, Bool, true, false, not, Option, none, some, List, [], ◌∷◌, ◌++◌, map, filter,
  find?, any, length, if◌then◌else◌, leb, ltb, ◌==◌, ◌&&◌, ◌||◌, get, modify, update_where, Try, ok,
  raise, text_eq, lower,
}
use ai_api.Models.{
  Text, Instant, Member, MemberStatus, member_is_active, CallRecord, ActorType, AuditEntry,
  Allocation, Credential, CredentialAllocation,
}
use ai_api.Models.Events.{AuditEventType}
use ai_api.Allocations.{Store, member_key, allocation_id, credential_id}
use ai_api.Access.ModelAccess.{MemberTag, member_of}
use ai_api.Base.Strings.{strip}
use ai_api.Sessions.{Session, member_disabled_reason, revoke_all_for_member}
use ai_api.Invitations.{InvitationToken, issue_invitation}
use ai_api.Tags.{TagDb, contains}
use ai_api.TagRules.{TagRule, Regex}
use ai_api.TagRules.Editing.{apply_to_new_member}
use ai_api.Members.Tables.{
  MemberProvider, is_local, MemberDb, MemberError, with_members, with_audit, already_exists,
  last_admin_cannot_demote, cannot_delete_self, last_admin_cannot_delete, value_error,
}

abbrev pub same_status : MemberStatus → MemberStatus → Bool
same_status MemberStatus.active MemberStatus.active = true
same_status MemberStatus.disabled MemberStatus.disabled = true
same_status _ _ = false

-- the change of a member's status, and the end of the sessions of one who is disabled
unfoldable pub set_status : Instant → ℕ → MemberStatus → MemberDb → MemberDb
unfolding with_members revoke_all_for_member
set_status now id status db =
    let db' =
      with_members (modify member_key id (λ m. record m { status = status }) db.store.members) db in
    if member_is_active status then db' else record db' {
      sessions = (revoke_all_for_member id member_disabled_reason now db'.sessions).1;
    }

-- `update`, of the status
unfoldable pub update : Instant → ℕ → Option MemberStatus → MemberDb → Option Member × MemberDb
unfolding set_status
update now id status db = elim (get member_key id db.store.members) [
  | none ↦ (none, db)
  | some m ↦ elim status [
    | none ↦ (some m, db)
    | some s ↦
        if same_status s m.status
        then (some m, db)
        else (some (record m { status = s }), set_status now id s db)
  ]
]

abbrev pub is_active_admin : Member → Bool
is_active_admin m = m.is_admin && member_is_active m.status

-- the count of the active administrators
abbrev pub admin_count : List Member → ℕ
admin_count members = length (filter is_active_admin members)

abbrev pub same_bool : Bool → Bool → Bool
same_bool true b = b
same_bool false b = not b

unfoldable pub with_admin : ℕ → Bool → MemberDb → MemberDb
unfolding with_members with_audit
with_admin id is_admin db =
    with_audit (if is_admin then AuditEventType.member_promoted else AuditEventType.member_demoted)
      id
      (with_members (modify member_key id (λ m. record m { is_admin = is_admin }) db.store.members)
        db)

-- `set_is_admin`
unfoldable pub set_is_admin : ℕ → Bool → MemberDb → Try MemberError (Option Member) × MemberDb
unfolding with_admin
set_is_admin id is_admin db = elim (get member_key id db.store.members) [
  | none ↦ (ok none, db)
  | some m ↦
      if same_bool m.is_admin is_admin
      then (ok (some m), db)
      else if not is_admin && leb (admin_count db.store.members) 1
      then (raise last_admin_cannot_demote, db)
      else (ok (some (record m { is_admin = is_admin })), with_admin id is_admin db)
]

-- the ids of a member's allocations and keys
abbrev pub allocations_of : ℕ → MemberDb → List ℕ
allocations_of id db = map allocation_id (filter (λ a. a.member_id == id) db.store.allocations)

abbrev pub credentials_of : ℕ → MemberDb → List ℕ
credentials_of id db = map credential_id (filter (λ c. c.member_id == id) db.store.credentials)

abbrev pub refers_to : List ℕ → CallRecord → Bool
refers_to ids c = elim c.allocation_id [ none ↦ false | some a ↦ contains ids a ]

abbrev pub orphaned : CallRecord → CallRecord
orphaned c = record c { allocation_id = none }

-- the statements of `delete`; the rows that only the foreign keys of the database take along stay
unfoldable pub delete_rows : ℕ → List ℕ → List ℕ → MemberDb → MemberDb
delete_rows id alloc_ids cred_ids db = record db {
  store = record db.store {
    members = filter (λ m. not (m.id == id)) db.store.members;
    allocations = filter (λ a. not (contains alloc_ids a.id)) db.store.allocations;
    credentials = filter (λ c. not (contains cred_ids c.id)) db.store.credentials;
    links =
        filter (λ l. not (contains cred_ids l.credential_id || contains alloc_ids l.allocation_id))
          db.store.links;
  };
  call_records = update_where (refers_to alloc_ids) orphaned db.call_records;
  sessions = filter (λ s. not (s.member_id == id)) db.sessions;
}

abbrev pub is_acting : Option ℕ → ℕ → Bool
is_acting none id = false
is_acting (some acting) id = acting == id

-- the active administrators beside a member
abbrev pub other_admins : ℕ → List Member → ℕ
other_admins id members = length (filter (λ m. is_active_admin m && not (m.id == id)) members)

-- `delete`
unfoldable pub delete : ℕ → Option ℕ → MemberDb → Try MemberError Bool × MemberDb
unfolding delete_rows with_audit
delete id acting db = elim (get member_key id db.store.members) [
  | none ↦ (ok false, db)
  | some m ↦
      if is_acting acting id
      then (raise cannot_delete_self, db)
      else if is_active_admin m && other_admins id db.store.members == 0
      then (raise last_admin_cannot_delete, db)
      else (
        ok true,
        with_audit AuditEventType.member_deleted id
            (delete_rows id (allocations_of id db) (credentials_of id db) db),
      )
]
