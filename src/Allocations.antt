-- ===== src/Allocations.antt =====
-- src/ai_api/services/allocations.py: allocations, the keys whose scopes they are in, and the
-- resolution of a token and a model. A call takes the present instant, the fresh ids and the fresh
-- token that it uses as arguments.
pub mod Keys
pub mod Lifecycle
mod Tests
use ai_api.Base.{
  ℕ, Bool, true, false, Option, none, some, List, [], ◌∷◌, ◌++◌, if◌then◌else◌, Try, ok, raise, get,
  modify, find?, any, ◌&&◌, ◌==◌, text_eq, lower, not, ◌||◌,
}
use ai_api.Base.Int.{ℤ}
use ai_api.Models.{
  Text, Instant, Allocation, AllocationStatus, AllocationOrigin, is_active, is_revoked, is_paused,
  is_self_service, Member, MemberStatus, Credential, CredentialAllocation, ReclaimLock,
  GeneratedToken, ActorType, AuditEntry,
}
use ai_api.Models.Events.{AuditEventType}

pub record Store : Type 0 where
  pub members : List Member
  pub allocations : List Allocation
  pub credentials : List Credential
  pub links : List CredentialAllocation
  pub reclaim_locks : List ReclaimLock
  pub audit_log : List AuditEntry

-- `ValueError`, `PermissionError`, and `InvalidAllocationState` with the status that it carries
pub data AllocationError : Type 0 where
  value_error permission_error integrity_error : AllocationError
  invalid_state : AllocationStatus → AllocationError

abbrev pub allocation_id : Allocation → ℕ
allocation_id a = a.id

abbrev pub credential_id : Credential → ℕ
credential_id c = c.id

abbrev pub member_key : Member → ℕ
member_key m = m.id

pub audited : AuditEventType → Option ℕ → Store → Store
audited event target st = record st {
  audit_log =
      st.audit_log
      ++ record { event_type = event; actor_type = ActorType.admin; target_id = target } ∷ [];
}

-- `pause`
pub pause : ℕ → Store → Try AllocationError (Option Allocation) × Store
pause id st = elim (get allocation_id id st.allocations) [
  | none ↦ (ok none, st)
  | some a ↦
      if is_active a.status
      then (
        ok (some (record a { status = AllocationStatus.paused })),
        audited AuditEventType.allocation_paused (some id) (record st {
          allocations =
              modify allocation_id id (λ r. record r { status = AllocationStatus.paused })
                st.allocations;
        }),
      )
      else (raise (invalid_state a.status), st)
]

-- `resume`
pub resume : ℕ → Store → Try AllocationError (Option Allocation) × Store
resume id st = elim (get allocation_id id st.allocations) [
  | none ↦ (ok none, st)
  | some a ↦
      if is_paused a.status
      then (
        ok (some (record a { status = AllocationStatus.active })),
        audited AuditEventType.allocation_resumed (some id) (record st {
          allocations =
              modify allocation_id id (λ r. record r { status = AllocationStatus.active })
                st.allocations;
        }),
      )
      else (raise (invalid_state a.status), st)
]

abbrev pub locks : ℕ → Text → ReclaimLock → Bool
locks member model l = l.member_id == member && text_eq l.model_slug model

-- `_lock_reclaim`
pub lock_reclaim : Allocation → Store → Store
lock_reclaim a st = audited AuditEventType.self_service_reclaim_locked (some a.member_id) (
    if any (locks a.member_id a.resource_model) st.reclaim_locks then st else record st {
      reclaim_locks =
          st.reclaim_locks
          ++ record { member_id = a.member_id; model_slug = a.resource_model } ∷ [];
    })

-- `revoke`
pub revoke : Instant → ℕ → Store → Option Allocation × Store
revoke now id st = elim (get allocation_id id st.allocations) [
  | none ↦ (none, st)
  | some a ↦
      if is_revoked a.status
      then (some a, st)
      else (let revoked = record a { status = AllocationStatus.revoked; revoked_at = some now } in
          let st' = record st {
            allocations =
                modify allocation_id id
                  (λ r. record r { status = AllocationStatus.revoked; revoked_at = some now })
                  st.allocations;
          } in
          (some revoked, if is_self_service a.origin then lock_reclaim revoked st' else st'))
]

abbrev pub link_of : Credential → Allocation → CredentialAllocation
link_of c a = record {
  credential_id = c.id;
  allocation_id = a.id;
  resource_model = a.resource_model;
}

-- a new key, and the links of its scope
pub issue : Credential → List CredentialAllocation → Store → Store
issue c links st = record st { credentials = st.credentials ++ c ∷ []; links = st.links ++ links }

unfoldable pub new_credential : ℕ → ℕ → Text → GeneratedToken → Instant → Credential
new_credential id member name token now = record {
  id = id;
  member_id = member;
  name = name;
  token_fingerprint = token.fingerprint;
  created_at = now;
  last_used_at = none;
  revoked_at = none;
}

-- `_ensure_external_member`
pub ensure_external_member : ℕ → Text → Store → Member × Store
ensure_external_member id subject st =
    elim (find? (λ m. text_eq m.email (lower subject)) st.members) [
      | some m ↦ (m, st)
      | none ↦
          let m : Member = record {
            id = id;
            email = lower subject;
            status = MemberStatus.active;
            is_admin = false;
          } in
          (m, record st { members = st.members ++ m ∷ [] })
    ]

-- the arguments of `create` that the row keeps
pub record Request : Type 0 where
  pub member_id : Option ℕ
  pub subject : Option Text
  pub resource_model : Text
  pub quota_tokens_per_month : Option ℤ
  pub quota_cost_usd_per_month : Option ℕ
  pub origin : AllocationOrigin

-- the fresh ids and the fresh token of one `create`
pub record Fresh : Type 0 where
  pub member : ℕ
  pub allocation : ℕ
  pub credential : ℕ
  pub token : GeneratedToken

-- `create`, from the member on
unfoldable pub create_for : Text → Fresh → Instant → Request → Member → Store → Allocation × Store
create_for default_name fresh now request m st =
    let a : Allocation = record {
      id = fresh.allocation;
      member_id = m.id;
      resource_model = request.resource_model;
      status = AllocationStatus.active;
      created_at = now;
      revoked_at = none;
      quota_tokens_per_month = request.quota_tokens_per_month;
      quota_cost_usd_per_month = request.quota_cost_usd_per_month;
      is_service_allocation = false;
      quota_locked = false;
      origin = request.origin;
    } in
    let c = new_credential fresh.credential m.id default_name fresh.token now in
    (a, issue c (link_of c a ∷ []) (record st { allocations = st.allocations ++ a ∷ [] }))

-- `create`
unfoldable pub create :
    Text
    → Fresh
    → Instant
    → Request
    → Store
    → Try AllocationError (Allocation × GeneratedToken) × Store
create default_name fresh now request st =
    if text_eq request.resource_model [] then (raise value_error, st) else elim request.member_id [
      | none ↦ elim request.subject [
        | none ↦ (raise value_error, st)
        | some subject ↦
            let (m, st') = ensure_external_member fresh.member subject st in
            let (a, st'') = create_for default_name fresh now request m st' in
            (ok (a, fresh.token), st'')
      ]
      | some id ↦ elim (get member_key id st.members) [
        | none ↦ (raise value_error, st)
        | some m ↦
            let (a, st'') = create_for default_name fresh now request m st in
            (ok (a, fresh.token), st'')
      ]
    ]
