-- ===== src/Access/Tests.antt =====
-- A catalog of one model that is open to a tag, a member with the tag, and a claim.
use ai_api.Base.{◌≡◌, refl, true, false, none, some, [], ◌∷◌, ok, raise, text_eq}
use ai_api.Base.Int.{pos}
use ai_api.Models.{Allocation, AllocationStatus, AllocationOrigin, Member, MemberStatus}
use ai_api.Allocations.{revoke, Fresh, create, create_for}
use ai_api.Access.{
  already_claimed, reclaim_locked, evaluate_claim_eligibility, has_active_self_alloc, is_locked,
  eligibility, check, claim_error, claim_model, claim,
}
use ai_api.Access.ModelAccess.{
  TagSource, DefaultAccess, ModelCatalog, AccessDb, evaluate_visibility, get_member_tags,
  active_providers, is_accessible,
}
use ai_api.Access.Visibility.{all_passed, visibility_agrees}
use ai_api.Access.Claims.{claim_once}

abbrev model : ModelCatalog
model = record {
  slug = b'm' ∷ [];
  provider = b'p' ∷ [];
  default_access = DefaultAccess.restricted;
  allowed_tags = (b't' ∷ []) ∷ [];
  denied_tags = (b'u' ∷ []) ∷ [];
  self_service_enabled = true;
  self_service_default_quota = some (pos 10);
}

abbrev member : Member
member = record { id = 7; email = []; status = MemberStatus.active; is_admin = false }

abbrev db : AccessDb
db = record {
  model_catalog = model ∷ [];
  member_tags =
      record { member_id = 7; tag = b't' ∷ []; source = TagSource.manual; rule_id = none } ∷ [];
  provider_credentials =
      record {
        id = 1;
        provider = b'p' ∷ [];
        enc_key = [];
        is_active = true;
        last_used_at = none;
        created_at = 0;
      }
      ∷ [];
  store = record {
    members = member ∷ [];
    allocations = [];
    credentials = [];
    links = [];
    reclaim_locks = [];
    audit_log = [];
  };
}

visibility_agrees_example :
    let (visible, chain) = evaluate_visibility model (get_member_tags 7 db) (active_providers db) in
    (visible ≡ is_accessible member model db) × (visible ≡ all_passed chain)
visibility_agrees_example = visibility_agrees member model db

abbrev fresh : Fresh
fresh = record {
  member = 8;
  allocation = 3;
  credential = 4;
  token = record { plaintext = 99 ∷ []; fingerprint = 5 };
}

abbrev claimed : Allocation
claimed = record {
  id = 3;
  member_id = 7;
  resource_model = b'm' ∷ [];
  status = AllocationStatus.active;
  created_at = 1;
  revoked_at = none;
  quota_tokens_per_month = some (pos 10);
  quota_cost_usd_per_month = none;
  is_service_allocation = false;
  quota_locked = false;
  origin = AllocationOrigin.self_service;
}

claims : (claim [] fresh 1 member (b'm' ∷ []) db).0 ≡ ok (claimed, fresh.token)
unfolding claim check claim_model eligibility evaluate_claim_eligibility evaluate_visibility
    get_member_tags active_providers has_active_self_alloc is_locked text_eq create create_for
claims = refl

claim_once_example :
    let db' = (claim [] fresh 1 member (b'm' ∷ []) db).1 in
    let ended = record db' { store = (revoke 2 3 db'.store).1 } in
    ((claim [] fresh 3 member (b'm' ∷ []) db').0 ≡ raise (claim_error already_claimed))
    × ((claim [] fresh 3 member (b'm' ∷ []) ended).0 ≡ raise (claim_error reclaim_locked))
claim_once_example =
    claim_once [] fresh fresh 1 2 3 member (b'm' ∷ []) db claimed fresh.token refl claims
