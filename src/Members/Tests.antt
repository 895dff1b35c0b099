-- ===== src/Members/Tests.antt =====
-- Two administrators, one of them with an allocation, a key, a call and a session.
use ai_api.Base.{◌≡◌, refl, ℕ, ◌≤◌, true, false, none, some, [], ◌∷◌, arith, length, ok, raise}
use ai_api.Models.{
  Text, Member, MemberStatus, Allocation, AllocationStatus, AllocationOrigin, CallRecord,
  CallOutcome, Credential,
}
use ai_api.Sessions.{Session, SessionStatus, validate_session}
use ai_api.Sessions.Ending.{validate_call}
use ai_api.Sessions.Ending
use ai_api.Members.{with_admin, update, set_status, delete, delete_rows, admin_count, set_is_admin}
use ai_api.Members.Tables.{MemberDb, with_members, with_audit, last_admin_cannot_demote}
use ai_api.Members.References.{References, delete-References}
use ai_api.Members.Batches.{
  set_is_admin_call, delete_call, bulk_delete_call, bulk_set_status_call, run_all, admin_remains,
}
use ai_api.Members.SignedOut.{disabled_signed_out}

abbrev admin : ℕ → Member
admin id = record { id = id; email = b'e' ∷ []; status = MemberStatus.active; is_admin = true }

abbrev allocation : Allocation
allocation = record {
  id = 20;
  member_id = 7;
  resource_model = b'm' ∷ [];
  status = AllocationStatus.active;
  created_at = 0;
  revoked_at = none;
  quota_tokens_per_month = none;
  quota_cost_usd_per_month = none;
  is_service_allocation = false;
  quota_locked = false;
  origin = AllocationOrigin.admin;
}

abbrev credential : Credential
credential = record {
  id = 30;
  member_id = 7;
  name = [];
  token_fingerprint = 5;
  created_at = 0;
  last_used_at = none;
  revoked_at = none;
}

abbrev a_call : CallRecord
a_call = record {
  allocation_id = some 20;
  started_at = record { year = 2026; month = 1; rest = 0 };
  outcome = CallOutcome.success;
  total_tokens = none;
  cost_usd = none;
}

abbrev session : Session
session = record {
  id = 2;
  member_id = 7;
  created_at = 100;
  last_seen_at = 100;
  expires_at = 5000;
  idle_timeout_at = 2000;
  status = SessionStatus.active;
  revoked_at = none;
  revoked_reason = none;
}

abbrev db : MemberDb
db = record {
  store = record {
    members = admin 7 ∷ admin 8 ∷ [];
    allocations = allocation ∷ [];
    credentials = credential ∷ [];
    links = record { credential_id = 30; allocation_id = 20; resource_model = b'm' ∷ [] } ∷ [];
    reclaim_locks = [];
    audit_log = [];
  };
  call_records = a_call ∷ [];
  sessions = session ∷ [];
  invitations = [];
  member_tags = [];
  tag_rules = [];
}

demoted_both : (set_is_admin 8 false (set_is_admin 7 false db).1).0 ≡ raise last_admin_cannot_demote
unfolding set_is_admin with_admin with_members with_audit
demoted_both = refl

-- `update` has no guard of the last administrator
disables_both :
    admin_count
      (update 60 8
        (some MemberStatus.disabled)
        (update 50 7 (some MemberStatus.disabled) db).1).1.store.members
    ≡ 0
unfolding update set_status with_members
disables_both = refl

orphans : (delete 7 (some 8) db).1.call_records ≡ record a_call { allocation_id = none } ∷ []
unfolding delete delete_rows with_audit
orphans = refl

db-References : References db
db-References = record {
  of_allocations = (refl, tt);
  of_credentials = (refl, tt);
  of_links = ((refl, refl), tt);
  of_call_records = ((λ a h. ground (arith, h)), tt);
  of_sessions = (refl, tt);
}

delete-References_example : References (delete 7 (some 8) db).1
delete-References_example = delete-References 7 (some 8) db db-References

admin_remains_example :
    1
    ≤ admin_count
        (run_all
          (set_is_admin_call 7 false
            ∷ delete_call 8 none
            ∷ bulk_set_status_call 50 MemberStatus.disabled (7 ∷ 8 ∷ [])
            ∷ bulk_delete_call (8 ∷ []) none
            ∷ [])
          db).store.members
admin_remains_example =
    admin_remains
      (set_is_admin_call 7 false
        ∷ delete_call 8 none
        ∷ bulk_set_status_call 50 MemberStatus.disabled (7 ∷ 8 ∷ [])
        ∷ bulk_delete_call (8 ∷ []) none
        ∷ [])
      db ((refl, tt), (tt, tt)) (omega arith)

abbrev digest : Text → ℕ
digest = length

disabled_signed_out_example :
    (validate_session digest (b'a' ∷ b'b' ∷ []) 400 (admin 7 ∷ []) (
      Ending.run_all digest
        (validate_call (b'a' ∷ b'b' ∷ []) 300 (admin 7 ∷ []) ∷ [])
        (update 200 7 (some MemberStatus.disabled) db).1.sessions)).0
    ≡ ok none
disabled_signed_out_example =
    disabled_signed_out digest (b'a' ∷ b'b' ∷ []) 200 400 7 (admin 7) (admin 7 ∷ [])
      (validate_call (b'a' ∷ b'b' ∷ []) 300 (admin 7 ∷ []) ∷ []) db refl refl ((λ _. refl), tt)
      (tt, tt)
