-- ===== src/Models.antt =====
-- src/ai_api/models: the rows that several services share. Ids are ULIDs and are numbers here.
-- A text is the list of its characters. Columns that no modelled code reads are left out: snapshots,
-- notes, the names of creators.
pub mod Time
pub mod Events
use ai_api.Base.{ℕ, Bool, true, false, Option, none, some, List}
use ai_api.Base.Int.{ℤ}
use ai_api.Models.Time.{DateTime}
use ai_api.Models.Events.{AuditEventType}

abbrev pub Text : Type 0
Text = List ℕ

-- instants that the code adds durations to, in microseconds
abbrev pub Instant : Type 0
Instant = ℕ

abbrev pub second : ℕ
second = 1_000_000

pub data AllocationStatus : Type 0 where
  active revoked quarantined paused : AllocationStatus

pub data AllocationOrigin : Type 0 where
  admin self_service : AllocationOrigin

-- `quota_cost_usd_per_month` is in millionths of a dollar, the column's scale.
pub record Allocation : Type 0 where
  pub id : ℕ
  pub member_id : ℕ
  pub resource_model : Text
  pub status : AllocationStatus
  pub created_at : Instant
  pub revoked_at : Option Instant
  pub quota_tokens_per_month : Option ℤ
  pub quota_cost_usd_per_month : Option ℕ
  pub is_service_allocation : Bool
  pub quota_locked : Bool
  pub origin : AllocationOrigin

abbrev pub is_active : AllocationStatus → Bool
is_active AllocationStatus.active = true
is_active _ = false

abbrev pub is_revoked : AllocationStatus → Bool
is_revoked AllocationStatus.revoked = true
is_revoked _ = false

abbrev pub is_paused : AllocationStatus → Bool
is_paused AllocationStatus.paused = true
is_paused _ = false

abbrev pub is_self_service : AllocationOrigin → Bool
is_self_service AllocationOrigin.self_service = true
is_self_service _ = false

pub data CallOutcome : Type 0 where
  success rejected_unauthenticated rejected_revoked rejected_model_mismatch : CallOutcome
  rejected_provider rejected_quarantined rejected_paused rejected_quota_exceeded : CallOutcome
  rejected_cost_quota_exceeded rejected_model_forbidden rejected_model_unsupported : CallOutcome
  rejected_response_forbidden rejected_response_not_found upstream_invalid_request : CallOutcome
  upstream_error gateway_error : CallOutcome

abbrev pub is_success : CallOutcome → Bool
is_success CallOutcome.success = true
is_success _ = false

-- `cost_usd` is in millionths of a dollar.
pub record CallRecord : Type 0 where
  pub allocation_id : Option ℕ
  pub started_at : DateTime
  pub outcome : CallOutcome
  pub total_tokens : Option ℕ
  pub cost_usd : Option ℕ

pub data ActorType : Type 0 where
  admin member system anonymous : ActorType

-- an audit row, without its texts
pub record AuditEntry : Type 0 where
  pub event_type : AuditEventType
  pub actor_type : ActorType
  pub target_id : Option ℕ

pub data MemberStatus : Type 0 where
  active disabled : MemberStatus

abbrev pub member_is_active : MemberStatus → Bool
member_is_active MemberStatus.active = true
member_is_active MemberStatus.disabled = false

pub record Member : Type 0 where
  pub id : ℕ
  pub email : Text
  pub status : MemberStatus
  pub is_admin : Bool

-- A key of a member. `fingerprint` is the SHA-256 digest of its token, as a number.
pub record Credential : Type 0 where
  pub id : ℕ
  pub member_id : ℕ
  pub name : Text
  pub token_fingerprint : ℕ
  pub created_at : Instant
  pub last_used_at : Option Instant
  pub revoked_at : Option Instant

-- A row of `credential_allocations`: the allocation is in the key's scope.
pub record CredentialAllocation : Type 0 where
  pub credential_id : ℕ
  pub allocation_id : ℕ
  pub resource_model : Text

pub record ReclaimLock : Type 0 where
  pub member_id : ℕ
  pub model_slug : Text

-- `GeneratedToken`: a fresh secret and its fingerprint
pub record GeneratedToken : Type 0 where
  pub plaintext : Text
  pub fingerprint : ℕ
