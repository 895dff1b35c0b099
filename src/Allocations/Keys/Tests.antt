-- ===== src/Allocations/Keys/Tests.antt =====
-- A store with two allocations and a key, and runs on it.
use ai_api.Base.{
  ℕ, ◌≡◌, ◌≢◌, refl, true, false, none, some, List, [], ◌∷◌, ◌++◌, map, ok, raise, All, get, any,
  ◌==◌, has_slash, strip_provider, text_eq,
}
use ai_api.Base.Int.{pos}
use ai_api.Models.{Text, Allocation, AllocationStatus, AllocationOrigin, Credential, GeneratedToken}
use ai_api.Allocations.{Store, integrity_error, allocation_id, link_of, issue, new_credential}
use ai_api.Allocations.Keys.{
  dedupe_from, dedupe, owned_from, owned_allocations, create_member_credential,
  patch_credential_scope, patch_key, patch_with, flush_scope, rename_credential,
  credential_in_allocation_scope, revoke_credential, rotate_credential,
}
use ai_api.Allocations.Keys.Lookup.{
  resolves, touched, lookup_credential_by_token, joined, scope_allocations, exact_allocation,
  resolve_scope_allocation,
}
use ai_api.Allocations.Keys.Resolution.{resolution_in_scope}
use ai_api.Allocations.Keys.Unique.{DistinctModels, UniqueModels}
use ai_api.Allocations.Keys.Scopes.{create_scope}
use ai_api.Allocations.Keys.Calls.{Setting, Call, issue_call, patch_call, rename_call, run, run_all}
use ai_api.Allocations.Keys.Constraint.{AllFresh, run_all-UniqueModels}
use ai_api.Allocations.Keys.Revoked.{revoked_for_good}

abbrev row : ℕ → Text → Allocation
row i model = record {
  id = i;
  member_id = 7;
  resource_model = model;
  status = AllocationStatus.active;
  created_at = 0;
  revoked_at = none;
  quota_tokens_per_month = some (pos 100);
  quota_cost_usd_per_month = none;
  is_service_allocation = false;
  quota_locked = false;
  origin = AllocationOrigin.admin;
}

-- `p/a` and `b`
abbrev prefixed : Text
prefixed = 112 ∷ 47 ∷ 97 ∷ []

abbrev bare : Text
bare = 98 ∷ []

abbrev key : Credential
key = new_credential 3 7 [] (record { plaintext = []; fingerprint = 50 }) 0

abbrev store : Store
store = record {
  members = [];
  allocations = row 1 prefixed ∷ row 2 bare ∷ [];
  credentials = key ∷ [];
  links = record { credential_id = 3; allocation_id = 1; resource_model = prefixed } ∷ [];
  reclaim_locks = [];
  audit_log = [];
}

-- the bare name `a` of the provider-prefixed row
resolved : resolve_scope_allocation key (97 ∷ []) store ≡ some (row 1 prefixed)
unfolding resolve_scope_allocation exact_allocation scope_allocations joined new_credential
    has_slash strip_provider text_eq
resolved = refl

resolution_in_scope_example : credential_in_allocation_scope key.id 1 store ≡ true
resolution_in_scope_example = resolution_in_scope key (97 ∷ []) store (row 1 prefixed) resolved

abbrev token : GeneratedToken
token = record { plaintext = 120 ∷ []; fingerprint = 60 }

made :
    (create_member_credential 4 token 0 7 [] (2 ∷ 1 ∷ 2 ∷ []) store).0
    ≡ ok (new_credential 4 7 [] token 0, token)
unfolding create_member_credential owned_allocations owned_from dedupe dedupe_from text_eq
made = refl

create_scope_example :
    let run = create_member_credential 4 token 0 7 [] (2 ∷ 1 ∷ 2 ∷ []) store in
    (found : List Allocation) × (found ≢ [])
    × All (λ a. get allocation_id a.id store.allocations ≡ some a) found
    × ((i : ℕ) → any (λ a. a.id == i) found ≡ any (λ j. j == i) (2 ∷ 1 ∷ 2 ∷ []))
    × All (λ a. a.member_id ≡ 7) found
    × DistinctModels found
    × (run.1.links ≡ store.links ++ map (link_of (new_credential 4 7 [] token 0)) found)
    × UniqueModels run.1.links
create_scope_example =
    create_scope 4 token 0 7 [] (2 ∷ 1 ∷ 2 ∷ []) store (new_credential 4 7 [] token 0) token
      (tt, tt) (refl, tt) made

-- a fingerprint that tells the two tokens of the store apart
abbrev digest : Text → ℕ
digest [] = 50
digest _ = 60

rotated_key : (rotate_credential token 3 store).0 ≡ ok (some (new_credential 3 7 [] token 0, token))
unfolding rotate_credential new_credential
rotated_key = refl

unused : resolves 60 key ≡ false
unfolding new_credential
unused = refl

abbrev setting : Setting
setting = record { default_name = []; fingerprint_for = digest }

-- a second key, and more models for the first
abbrev calls : List Call
calls = issue_call 4 token 0 7 [] (2 ∷ 1 ∷ []) ∷ patch_call 3 (2 ∷ []) [] ∷ rename_call 3 bare ∷ []

run_all-UniqueModels_example : UniqueModels (run_all setting calls store).links
unfolding AllFresh
run_all-UniqueModels_example =
    run_all-UniqueModels setting calls store ((refl, tt), (tt, (tt, tt))) (tt, tt)

other_key :
    (lookup_credential_by_token digest 5
      (120 ∷ [])
      (run_all setting calls (revoke_credential 1 3 store).1)).0
    ≡ some (record (new_credential 4 7 [] token 0) { last_used_at = some 5 })
unfolding lookup_credential_by_token touched run_all run create_member_credential owned_allocations
    owned_from dedupe dedupe_from text_eq issue new_credential revoke_credential
    patch_credential_scope patch_key patch_with flush_scope rename_credential
other_key = refl

revoked_for_good_example : (new_credential 4 7 [] token 0).id ≢ 3
unfolding new_credential
revoked_for_good_example =
    revoked_for_good setting 1 5 3 calls (120 ∷ []) store
      (record (new_credential 4 7 [] token 0) { last_used_at = some 5 }) (refl, (tt, (tt, tt)))
      other_key

-- one allocation of a model is swapped for another in one patch
swap_refused :
    patch_credential_scope 3
      (3 ∷ [])
      (1 ∷ [])
      (record store { allocations = row 3 prefixed ∷ store.allocations })
    ≡ (raise integrity_error, record store { allocations = row 3 prefixed ∷ store.allocations })
unfolding patch_credential_scope patch_key patch_with flush_scope owned_allocations owned_from
    dedupe dedupe_from new_credential text_eq
swap_refused = refl
