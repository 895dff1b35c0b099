-- ===== src/Preflight.antt =====
-- src/ai_api/proxy/preflight.py: the checks before a call goes to a provider, with
-- src/ai_api/proxy/allowlist.py, src/ai_api/proxy/guard.py and src/ai_api/services/quota.py. Messages are left
-- out. The month of the quotas, the instant of the writes and `decrypt_str` of src/ai_api/services/crypto.py are
-- arguments.
pub mod ProviderKeys
pub mod Safety
pub mod Turns
mod Tests
use ai_api.Base.{
  ℕ, ◌≤◌, Bool, true, false, not, Option, none, some, List, [], ◌∷◌, ◌++◌, map, filter, find?, any,
  sum_by, if◌then◌else◌, Try, ok, raise, is_none, get, modify, leb, ltb, ◌==◌, ◌&&◌, ◌||◌, text_eq,
  has_slash, before_slash, lower,
}
use ai_api.Base.Int.{ℤ, pos, ltb_ℤ}
use ai_api.Models.{
  Text, Instant, Allocation, AllocationStatus, is_active, CallRecord, is_success, Member,
  Credential, ActorType,
}
use ai_api.Models.Events.{AuditEventType}
use ai_api.Models.Time.{DateTime, month_start, at_or_before}
use ai_api.Allocations.{Store, allocation_id, member_key}
use ai_api.Allocations.Keys.Lookup.{
  lookup_credential_by_token, resolve_scope_allocation, scope_allocations,
}
use ai_api.Access.{get_model}
use ai_api.Access.ModelAccess.{ProviderKey, ModelCatalog, AccessDb, is_accessible}
use ai_api.Preflight.ProviderKeys.{ResolvedCredential, DecryptError, get_next}

-- "azure"
abbrev pub default_provider : Text
default_provider = b'a' ∷ b'z' ∷ b'u' ∷ b'r' ∷ b'e' ∷ []

-- `parse_provider`, its first part
pub parse_provider : Text → Text
parse_provider model = if has_slash model then lower (before_slash model) else default_provider

-- `check_allowed`
pub check_allowed : Text → List Text → Bool
check_allowed provider allowed = any (λ p. text_eq (lower p) (lower provider)) allowed

-- the rows that the monthly sums take
abbrev pub of_month : DateTime → ℕ → CallRecord → Bool
of_month now id r =
    (elim r.allocation_id [ none ↦ false | some i ↦ i == id ])
    && is_success r.outcome
    && at_or_before (month_start now.year now.month) r.started_at

abbrev pub value_or_zero : Option ℕ → ℕ
value_or_zero none = 0
value_or_zero (some n) = n

-- `current_month_usage`
pub current_month_usage : DateTime → ℕ → List CallRecord → ℕ
current_month_usage now id rows =
    sum_by (λ r. value_or_zero r.total_tokens) (filter (of_month now id) rows)

-- `current_month_cost`
pub current_month_cost : DateTime → ℕ → List CallRecord → ℕ
current_month_cost now id rows =
    sum_by (λ r. value_or_zero r.cost_usd) (filter (of_month now id) rows)

-- `is_over_quota`
pub is_over_quota : Allocation → ℕ → Bool
is_over_quota a usage = elim a.quota_tokens_per_month [
  | none ↦ false
  | some quota ↦ not (ltb_ℤ (pos usage) quota)
]

-- `is_over_cost_quota`
pub is_over_cost_quota : Allocation → ℕ → Bool
is_over_cost_quota a cost = elim a.quota_cost_usd_per_month [
  | none ↦ false
  | some quota ↦ leb quota cost
]

-- the settings that the checks read: `azure_fallback` is whether azure_openai_api_key is set
pub record Settings : Type 0 where
  pub allowed_providers : List Text
  pub azure_fallback : Bool

pub record PreflightDb : Type 0 where
  pub access : AccessDb
  pub call_records : List CallRecord

pub data RejectionCode : Type 0 where
  unauthorized model_mismatch provider_not_allowed allocation_revoked : RejectionCode
  allocation_quarantined allocation_paused quota_exceeded cost_quota_exceeded : RejectionCode
  model_forbidden provider_unavailable : RejectionCode

-- `resolved` is none for the key of the settings.
pub record PreflightSuccess : Type 0 where
  pub allocation : Allocation
  pub provider : Text
  pub resolved : Option ResolvedCredential
  pub upstream_model : Text
  pub canonical_model : Text

pub data Preflight : Type 0 where
  accepted : PreflightSuccess → Preflight
  rejected : RejectionCode → Option Allocation → Preflight

abbrev pub status_rejection : AllocationStatus → Option RejectionCode
status_rejection AllocationStatus.active = none
status_rejection AllocationStatus.revoked = some allocation_revoked
status_rejection AllocationStatus.quarantined = some allocation_quarantined
status_rejection AllocationStatus.paused = some allocation_paused

-- whether the access policy forbids the model; a model out of the catalog passes, and a lost member
pub forbidden : Allocation → AccessDb → Bool
forbidden a db = elim (get_model a.resource_model db) [
  | none ↦ false
  | some model ↦ elim (get member_key a.member_id db.store.members) [
    | none ↦ false
    | some member ↦ not (is_accessible member model db)
  ]
]

-- the checks of the allocation, the first failure first
pub rejection : Settings → DateTime → Allocation → PreflightDb → Option RejectionCode
rejection settings month a db =
    if not (check_allowed (parse_provider a.resource_model) settings.allowed_providers)
    then some provider_not_allowed
    else elim (status_rejection a.status) [
      | some code ↦ some code
      | none ↦
          if is_over_quota a (current_month_usage month a.id db.call_records)
          then some quota_exceeded
          else if is_over_cost_quota a (current_month_cost month a.id db.call_records)
          then some cost_quota_exceeded
          else if not (text_eq a.resource_model a.resource_model)
          then some model_mismatch
          else if forbidden a db.access
          then some model_forbidden
          else none
    ]

-- "/"
abbrev pub slash : Text
slash = b'/' ∷ []

abbrev pub upstream : Text → Text → Text
upstream provider model = if has_slash model then model else provider ++ slash ++ model

abbrev pub preflight_success : Allocation → Option ResolvedCredential → PreflightSuccess
preflight_success a key = record {
  allocation = a;
  provider = parse_provider a.resource_model;
  resolved = key;
  upstream_model = upstream (parse_provider a.resource_model) a.resource_model;
  canonical_model = a.resource_model;
}

-- with a key of the provider, or none
pub with_key : Settings → Allocation → Option ResolvedCredential → Preflight
with_key settings a (some key) = accepted (preflight_success a (some key))
with_key settings a none =
    if text_eq (parse_provider a.resource_model) default_provider && settings.azure_fallback
    then accepted (preflight_success a none)
    else rejected provider_unavailable (some a)

-- `_resolve_credential`, and the success
pub resolve_provider :
    (Text → Option Text)
    → Settings
    → Instant
    → Allocation
    → PreflightDb
    → Try DecryptError Preflight × PreflightDb
resolve_provider decrypt_str settings now a db =
    let (found, access) = get_next decrypt_str now (parse_provider a.resource_model) db.access in
    elim found [
      | raise e ↦ (raise e, record db { access = access })
      | ok key ↦ (ok (with_key settings a key), record db { access = access })
    ]

-- the older of two allocations, the first of two equally old
abbrev pub older : Option Allocation → Allocation → Allocation
older none a = a
older (some b) a = if ltb b.created_at a.created_at then b else a

pub oldest : List Allocation → Option Allocation
oldest [] = none
oldest (a ∷ rows) = let rest = oldest rows in some (older rest a)

-- `first_scope_allocation`
pub first_scope_allocation : Credential → Store → Option Allocation
first_scope_allocation c st = oldest (scope_allocations c st)

-- `run_preflight`, from the key on
pub preflight_key :
    (Text → Option Text)
    → Settings
    → Instant
    → DateTime
    → Text
    → Credential
    → PreflightDb
    → Try DecryptError Preflight × PreflightDb
preflight_key decrypt_str settings now month model c db =
    elim (resolve_scope_allocation c model db.access.store) [
      | none ↦ (ok (rejected model_mismatch (first_scope_allocation c db.access.store)), db)
      | some a ↦ elim (rejection settings month a db) [
        | some code ↦ (ok (rejected code (some a)), db)
        | none ↦ resolve_provider decrypt_str settings now a db
      ]
    ]

-- `run_preflight`. What it raises goes through to its caller, whose transaction then rolls back.
pub run_preflight :
    (Text → Option Text)
    → (Text → ℕ)
    → Settings
    → Instant
    → DateTime
    → Text
    → Text
    → PreflightDb
    → Try DecryptError Preflight × PreflightDb
run_preflight decrypt_str fingerprint_for settings now month token model db =
    let (found, store) = lookup_credential_by_token fingerprint_for now token db.access.store in
    let db' = record db { access = record db.access { store = store } } in
    elim found [
      | none ↦ (ok (rejected unauthorized none), db')
      | some c ↦ preflight_key decrypt_str settings now month model c db'
    ]
