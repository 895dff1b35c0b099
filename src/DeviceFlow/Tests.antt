-- ===== src/DeviceFlow/Tests.antt =====
-- A device that asks for a key, a member with one allocation who approves, and polls.
use ai_api.Base.{ℕ, ◌≡◌, refl, false, Option, none, some, [], ◌∷◌, ok, get}
use ai_api.Base.Int.{pos}
use ai_api.Models.{Text, AllocationStatus, AllocationOrigin, Credential}
use ai_api.Allocations.{Store, new_credential}
use ai_api.Allocations.Keys.{
  owned_from, dedupe_from, dedupe, owned_allocations, create_member_credential,
}
use ai_api.Allocations.Keys.Lookup.{lookup_credential_by_token}
use ai_api.DeviceFlow.{
  get_pending, Approval, approved_with, approve, approve_row, expired_token, success, poll,
  pinned_model, deliver,
}
use ai_api.DeviceFlow.Tables.{DeviceAuthorization, device_key, DeviceDb, new_authorization}
use ai_api.DeviceFlow.Lifetime.{delivered_once}
use ai_api.DeviceFlow.Settled.{authorize_call, deny_call, run_all}
use ai_api.DeviceFlow.Delivery.{approved_key_delivered}

abbrev store : Store
store = record {
  members = [];
  allocations =
      record {
        id = 1;
        member_id = 7;
        resource_model = 112 ∷ 47 ∷ 97 ∷ [];
        status = AllocationStatus.active;
        created_at = 0;
        revoked_at = none;
        quota_tokens_per_month = some (pos 100);
        quota_cost_usd_per_month = none;
        is_service_allocation = false;
        quota_locked = false;
        origin = AllocationOrigin.admin;
      }
      ∷ [];
  credentials = [];
  links = [];
  reclaim_locks = [];
  audit_log = [];
}

abbrev waiting : DeviceAuthorization
waiting = new_authorization 11 22 none 0

abbrev db : DeviceDb
db = record { authorizations = waiting ∷ []; store = store }

-- an encryption that puts one character in front, and its inverse
abbrev encrypt : Text → Text
encrypt s = 33 ∷ s

abbrev decrypt : Text → Option Text
decrypt [] = none
decrypt (_ ∷ s) = some s

abbrev by : Approval
by = record {
  member = 7;
  fresh = 5;
  token = record { plaintext = 120 ∷ []; fingerprint = 60 };
  default_label = 67 ∷ [];
}

abbrev granted : DeviceAuthorization
granted = approved_with (encrypt (120 ∷ [])) 1 7 1 5 waiting

approves : (approve encrypt by 1 22 (1 ∷ []) db).0 ≡ ok granted
unfolding approve approve_row get_pending new_authorization create_member_credential
    owned_allocations owned_from dedupe dedupe_from new_credential
approves = refl

abbrev digest : Text → ℕ
digest _ = 60

approved_key_delivered_example :
    let db' = (approve encrypt by 1 22 (1 ∷ []) db).1 in
    let polled = poll decrypt 900 granted.device_code db' in
    ((model : Option Text) × (polled.0 ≡ some (success (120 ∷ []) (some 5) model)))
    × ((c : Credential) × ((lookup_credential_by_token digest 1000 (120 ∷ []) polled.1.store).0
          ≡ some c)
        × (c.id ≡ 5)
        × (c.member_id ≡ 7))
approved_key_delivered_example =
    approved_key_delivered encrypt decrypt digest by 1 900 1000 22 (1 ∷ []) db granted (tt, tt) refl
      refl tt approves

abbrev granted_db : DeviceDb
granted_db = record { authorizations = granted ∷ []; store = store }

delivers :
    (poll decrypt 900 11 granted_db).0
    ≡ some (success (120 ∷ []) (some 5) (pinned_model granted store))
unfolding poll deliver new_authorization
delivers = refl

delivered_once_example :
    (poll decrypt 950 11 (
      run_all
        (deny_call 920 22 ∷ authorize_call 12 (λ _. 23) none 930 ∷ [])
        (poll decrypt 900 11 granted_db).1)).0
    ≡ some expired_token
delivered_once_example =
    delivered_once decrypt 900 950 11 (deny_call 920 22 ∷ authorize_call 12 (λ _. 23) none 930 ∷ [])
      granted_db (120 ∷ []) (some 5) (pinned_model granted store) (tt, tt) delivers

here : get device_key 11 granted_db.authorizations ≡ some granted
unfolding new_authorization
here = refl
