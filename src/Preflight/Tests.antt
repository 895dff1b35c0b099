-- ===== src/Preflight/Tests.antt =====
-- A call with a good token for a model of a provider with one key.
use mathlib.Core.List.{Mem}
use ai_api.Base.{
  ℕ, ◌≡◌, ◌⊎◌, refl, Option, ok, raise, true, false, none, some, [], ◌∷◌, any, text_eq, has_slash,
  before_slash, lower,
}
use ai_api.Base.Int.{pos}
use ai_api.Models.{
  Text, Allocation, AllocationStatus, AllocationOrigin, Credential, MemberStatus, CallOutcome,
}
use ai_api.Models.Time.{DateTime, at_or_before}
use ai_api.Allocations.Keys.{credential_in_allocation_scope}
use ai_api.Allocations.Keys.Lookup.{
  lookup_credential_by_token, resolve_scope_allocation, exact_allocation, touched,
}
use ai_api.Access.ModelAccess.{ProviderKey}
use ai_api.Preflight.{
  parse_provider, check_allowed, current_month_usage, current_month_cost, is_over_quota,
  is_over_cost_quota, with_key, Settings, PreflightDb, PreflightSuccess, accepted, forbidden,
  rejection, resolve_provider, preflight_key, run_preflight,
}
use ai_api.Preflight.ProviderKeys.{first_key, serves, get_next, resolved_of, decryption_failed}
use ai_api.Preflight.Safety.{Admissible, Served, after_lookup, preflight_safe}
use ai_api.Preflight.Turns.{Least, admitted_call_passes}

abbrev model : Text
model = b'p' ∷ b'/' ∷ b'a' ∷ []

abbrev allocation : Allocation
allocation = record {
  id = 1;
  member_id = 7;
  resource_model = model;
  status = AllocationStatus.active;
  created_at = 0;
  revoked_at = none;
  quota_tokens_per_month = some (pos 100);
  quota_cost_usd_per_month = some 50;
  is_service_allocation = false;
  quota_locked = false;
  origin = AllocationOrigin.admin;
}

abbrev key : Credential
key = record {
  id = 3;
  member_id = 7;
  name = [];
  token_fingerprint = 60;
  created_at = 0;
  last_used_at = none;
  revoked_at = none;
}

abbrev october : DateTime
october = record { year = 2026; month = 10; rest = 5 }

abbrev provider_key : ProviderKey
provider_key = record {
  id = 9;
  provider = b'p' ∷ [];
  enc_key = b'e' ∷ [];
  is_active = true;
  last_used_at = none;
  created_at = 0;
}

abbrev db : PreflightDb
db = record {
  access = record {
    model_catalog = [];
    member_tags = [];
    provider_credentials = provider_key ∷ [];
    store = record {
      members = record { id = 7; email = []; status = MemberStatus.active; is_admin = false } ∷ [];
      allocations = allocation ∷ [];
      credentials = key ∷ [];
      links = record { credential_id = 3; allocation_id = 1; resource_model = model } ∷ [];
      reclaim_locks = [];
      audit_log = [];
    };
  };
  call_records =
      record {
        allocation_id = some 1;
        started_at = october;
        outcome = CallOutcome.success;
        total_tokens = some 99;
        cost_usd = some 49;
      }
      ∷ [];
}

abbrev settings : Settings
settings = record { allowed_providers = (b'P' ∷ []) ∷ []; azure_fallback = false }

abbrev digest : Text → ℕ
digest _ = 60

-- a cipher that opens one text
abbrev decrypt_str : Text → Option Text
decrypt_str [] = none
decrypt_str (_ ∷ _) = some (b'k' ∷ [])

abbrev passed : PreflightSuccess
passed = record {
  allocation = allocation;
  provider = b'p' ∷ [];
  resolved = some (resolved_of provider_key (b'k' ∷ []));
  upstream_model = model;
  canonical_model = model;
}

passes : (run_preflight decrypt_str digest settings 5 october [] model db).0 ≡ ok (accepted passed)
unfolding run_preflight preflight_key resolve_provider with_key get_next first_key rejection
    forbidden check_allowed parse_provider current_month_usage current_month_cost is_over_quota
    is_over_cost_quota lookup_credential_by_token touched resolve_scope_allocation exact_allocation
    text_eq has_slash before_slash lower at_or_before
passes = refl

preflight_safe_example :
    let db' = after_lookup digest 5 [] db in
    ((c : Credential) × ((lookup_credential_by_token digest 5 [] db.access.store).0 ≡ some c)
      × (credential_in_allocation_scope c.id 1 db'.access.store ≡ true))
    × Admissible settings october allocation db'
    × (b'p' ∷ [] ≡ parse_provider model)
    × Served decrypt_str settings passed db'.access
preflight_safe_example =
    preflight_safe decrypt_str digest settings 5 october [] model db passed passes

found :
    (lookup_credential_by_token digest 5 [] db.access.store).0
    ≡ some (record key { last_used_at = some 5 })
unfolding lookup_credential_by_token touched
found = refl

resolved :
    resolve_scope_allocation
      (record key { last_used_at = some 5 })
      model
      (after_lookup digest 5 [] db).access.store
    ≡ some allocation
unfolding lookup_credential_by_token touched resolve_scope_allocation exact_allocation text_eq
resolved = refl

admissible : Admissible settings october allocation (after_lookup digest 5 [] db)
unfolding forbidden check_allowed parse_provider current_month_usage current_month_cost
    is_over_quota is_over_cost_quota text_eq has_slash before_slash lower at_or_before
admissible = (refl, refl, refl, refl, refl)

serving : any (serves (parse_provider model)) db.access.provider_credentials ≡ true
unfolding parse_provider text_eq has_slash before_slash lower
serving = refl

admitted_call_passes_example :
    let run = run_preflight decrypt_str digest settings 5 october [] model db in
    (k : ProviderKey) × Mem k (provider_key ∷ [])
    × Least (provider_key ∷ []) k
    × (((api_key : Text) × (s : PreflightSuccess) × (decrypt_str k.enc_key ≡ some api_key)
          × (run.0 ≡ ok (accepted s))
          × (s.allocation ≡ allocation)
          × (s.resolved ≡ some (resolved_of k api_key)))
        ⊎ ((decrypt_str k.enc_key ≡ none) × (run.0 ≡ raise decryption_failed)))
unfolding parse_provider text_eq has_slash before_slash lower
admitted_call_passes_example =
    admitted_call_passes decrypt_str digest settings 5 october [] model db
      (record key { last_used_at = some 5 }) allocation found resolved admissible serving
