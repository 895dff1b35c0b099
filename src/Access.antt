-- ===== src/Access.antt =====
-- src/ai_api/services/model_access.py and src/ai_api/services/self_service.py: which models a member may
-- see, and the claim of an allocation by a member. Sets of tags and of providers are lists.
pub mod ModelAccess
pub mod Visibility
pub mod Claims
mod Tests
use ai_api.Base.{
  ℕ, Bool, true, false, not, Option, none, some, List, [], ◌∷◌, ◌++◌, map, filter, find?, any,
  if◌then◌else◌, Try, ok, raise, ◌==◌, ◌&&◌, ◌||◌, text_eq,
}
use ai_api.Base.Int.{ℤ}
use ai_api.Models.{
  Text, Instant, Allocation, AllocationOrigin, is_active, is_self_service, Member, member_is_active,
  ReclaimLock, GeneratedToken, ActorType,
}
use ai_api.Models.Events.{AuditEventType}
use ai_api.Allocations.{Store, AllocationError, locks, Request, Fresh, create}
use ai_api.Access.ModelAccess.{
  ModelCatalog, AccessDb, member_of, evaluate_visibility, get_member_tags, active_providers,
}

pub data ClaimReason : Type 0 where
  member_inactive model_not_self_service model_forbidden already_claimed : ClaimReason
  reclaim_locked not_found : ClaimReason

-- `evaluate_claim_eligibility`: the reason against it, or none
pub evaluate_claim_eligibility :
    Bool → ModelCatalog → List Text → List Text → Bool → Bool → Option ClaimReason
evaluate_claim_eligibility active model tags providers claimed locked =
    if not active
    then some member_inactive
    else if not model.self_service_enabled
    then some model_not_self_service
    else if not (evaluate_visibility model tags providers).0
    then some model_forbidden
    else if claimed
    then some already_claimed
    else if locked
    then some reclaim_locked
    else none

-- the WHERE clause of `_has_active_self_alloc`
abbrev pub claimed_by : ℕ → Text → Allocation → Bool
claimed_by member slug a =
    a.member_id == member
    && text_eq a.resource_model slug
    && is_self_service a.origin
    && is_active a.status

-- `_has_active_self_alloc`
pub has_active_self_alloc : ℕ → Text → Store → Bool
has_active_self_alloc member slug st = any (claimed_by member slug) st.allocations

-- `_is_locked`
pub is_locked : ℕ → Text → Store → Bool
is_locked member slug st = any (locks member slug) st.reclaim_locks

-- `session.get(ModelCatalog, slug)`
abbrev pub get_model : Text → AccessDb → Option ModelCatalog
get_model slug db = find? (λ m. text_eq m.slug slug) db.model_catalog

-- the eligibility of a model of the catalog
pub eligibility : Member → Text → ModelCatalog → AccessDb → Option ClaimReason
eligibility member slug model db =
    evaluate_claim_eligibility (member_is_active member.status) model (get_member_tags member.id db)
      (active_providers db) (has_active_self_alloc member.id slug db.store)
      (is_locked member.id slug db.store)

-- `check`
pub check : Member → Text → AccessDb → Option ClaimReason × Option ModelCatalog
check member slug db = elim (get_model slug db) [
  | none ↦ (some not_found, none)
  | some model ↦ (eligibility member slug model db, some model)
]

-- `ClaimError`, and what the allocation service raises
pub data ClaimError : Type 0 where
  claim_error : ClaimReason → ClaimError
  not_created : AllocationError → ClaimError

abbrev pub request_for : Member → Text → ModelCatalog → Request
request_for member slug model = record {
  member_id = some member.id;
  subject = none;
  resource_model = slug;
  quota_tokens_per_month = model.self_service_default_quota;
  quota_cost_usd_per_month = none;
  origin = AllocationOrigin.self_service;
}

pub audited_claim : AccessDb → AccessDb
audited_claim db =
    let log =
      db.store.audit_log
      ++ record {
        event_type = AuditEventType.self_service_claimed;
        actor_type = ActorType.member;
        target_id = none;
      }
        ∷ [] in
    record db { store = record db.store { audit_log = log } }

-- `claim`, of a model that the member is eligible for
pub claim_model :
    Text
    → Fresh
    → Instant
    → Member
    → Text
    → ModelCatalog
    → AccessDb
    → Try ClaimError (Allocation × GeneratedToken) × AccessDb
claim_model default_name fresh now member slug model db =
    let (made, store) = create default_name fresh now (request_for member slug model) db.store in
    elim made [
      | raise e ↦ (raise (not_created e), record db { store = store })
      | ok created ↦ (ok created, audited_claim (record db { store = store }))
    ]

-- `claim`
pub claim :
    Text
    → Fresh
    → Instant
    → Member
    → Text
    → AccessDb
    → Try ClaimError (Allocation × GeneratedToken) × AccessDb
claim default_name fresh now member slug db =
    let (reason, found) = check member slug db in
    elim reason [
      | some r ↦ (raise (claim_error r), db)
      | none ↦ elim found [
        | none ↦ (raise (claim_error not_found), db)
        | some model ↦ claim_model default_name fresh now member slug model db
      ]
    ]

-- the models that the member holds
pub held : Member → AccessDb → List Text
held member db =
    map (λ a. a.resource_model)
      (filter (λ a. a.member_id == member.id && is_active a.status) db.store.allocations)

-- whether `list_claimable` lists a model
abbrev pub offered : Member → AccessDb → ModelCatalog → Bool
offered member db m =
    m.self_service_enabled
    && ((evaluate_visibility m (get_member_tags member.id db) (active_providers db)).0
        && not (member_of (held member db) m.slug))

-- `list_claimable`: the models offered, each with whether the reclaim lock stands against it
pub list_claimable : Member → AccessDb → List (ModelCatalog × Bool)
list_claimable member db =
    if not (member_is_active member.status)
    then []
    else map (λ m. (m, is_locked member.id m.slug db.store))
        (filter (offered member db) db.model_catalog)
