-- ===== src/Oauth/Tests.antt =====
-- A member consents to an app, which exchanges its code.
use ai_api.Base.{◌≡◌, ◌≤◌, refl, false, none, some, [], ◌∷◌, ok, raise, length, text_eq}
use ai_api.Base.Int.{pos}
use ai_api.Models.{
  Text, Allocation, AllocationStatus, AllocationOrigin, Credential, GeneratedToken, MemberStatus,
}
use ai_api.Allocations.{Store, new_credential}
use ai_api.Allocations.Keys.{
  owned_from, dedupe_from, dedupe, owned_allocations, create_member_credential,
}
use ai_api.Oauth.{
  get_oauth_config, ConsentRequest, method_s256, new_consent, checked_consent, create_consent,
  consume, Grant, redeem, exchange_row, exchange,
}
use ai_api.Oauth.Tables.{OauthAuthStatus, OauthAuthorization, OauthDb, invalid_grant}
use ai_api.Oauth.Allowlist.{split_entries, parse_allowlist, redirect_allowed}
use ai_api.Base.Strings.{is_space, lstrip, rstrip, strip, starts_with, take}
use ai_api.Oauth.Exchange.{Redeemed, exchange_checks}
use ai_api.Oauth.Exchange.SingleUse.{deny_call, approve_call, run_all, code_used_once}
use ai_api.Oauth.Consent.{OnAllowlist, consent_redirect_allowed}

abbrev allocation : Allocation
allocation = record {
  id = 1;
  member_id = 7;
  resource_model = 97 ∷ [];
  status = AllocationStatus.active;
  created_at = 0;
  revoked_at = none;
  quota_tokens_per_month = some (pos 100);
  quota_cost_usd_per_month = none;
  is_service_allocation = false;
  quota_locked = false;
  origin = AllocationOrigin.admin;
}

abbrev store : Store
store = record {
  members = record { id = 7; email = []; status = MemberStatus.active; is_admin = false } ∷ [];
  allocations = allocation ∷ [];
  credentials = [];
  links = [];
  reclaim_locks = [];
  audit_log = [];
}

abbrev uri : Text
uri = b'h' ∷ b':' ∷ b'x' ∷ []

-- the challenge is the verifier itself
abbrev digest : Text → Text
digest s = s

abbrev approved : OauthAuthorization
approved = record {
  id = 3;
  client_name = b'A' ∷ [];
  redirect_uri = uri;
  code_challenge = b'v' ∷ [];
  member_id = 7;
  status = OauthAuthStatus.approved;
  allocation_ids = some (1 ∷ []);
  code = some 9;
  credential_id = none;
  created_at = 0;
  expires_at = 100;
  approved_at = some 1;
  consumed_at = none;
}

abbrev db : OauthDb
db = record {
  oauth_config = some (b' ' ∷ b'h' ∷ b':' ∷ 10 ∷ b',' ∷ []);
  consents = approved ∷ [];
  store = store;
}

abbrev request : Grant
request = record { code = 9; redirect_uri = uri; code_verifier = b'v' ∷ [] }

abbrev token : GeneratedToken
token = record { plaintext = 120 ∷ []; fingerprint = 60 }

abbrev key : Credential
key = new_credential 5 7 (b'A' ∷ []) token 50

exchanges : (exchange digest 5 token 50 request db).0 ≡ ok (key, token, consume 50 5 approved)
unfolding exchange exchange_row redeem create_member_credential owned_allocations owned_from dedupe
    dedupe_from text_eq new_credential
exchanges = refl

exchange_checks_example :
    (row : OauthAuthorization) × Redeemed digest 5 token 50 request db
      (key, token, consume 50 5 approved)
      (exchange digest 5 token 50 request db).1
      row
exchange_checks_example =
    exchange_checks digest 5 token 50 request db (key, token, consume 50 5 approved) exchanges

code_used_once_example :
    let after =
      run_all
        (deny_call 55 3 7 ∷ approve_call 10 56 3 7 (1 ∷ []) ∷ [])
        (exchange digest 5 token 50 request db).1 in
    exchange digest 6 token 60 request after ≡ (raise invalid_grant, after)
code_used_once_example =
    code_used_once digest 5 6 token token 50 60 request request
      (deny_call 55 3 7 ∷ approve_call 10 56 3 7 (1 ∷ []) ∷ []) db
      (key, token, consume 50 5 approved) (tt, tt) exchanges refl

abbrev asked : ConsentRequest
asked = record {
  client_name = b'A' ∷ [];
  redirect_uri = uri;
  code_challenge =
      1 ∷ 2 ∷ 3 ∷ 4 ∷ 5 ∷ 6 ∷ 7 ∷ 8 ∷ 9 ∷ 10 ∷ 1 ∷ 2 ∷ 3 ∷ 4 ∷ 5 ∷ 6 ∷ 7 ∷ 8 ∷ 9 ∷ 10 ∷ 1 ∷ 2 ∷ 3
      ∷ 4 ∷ 5 ∷ 6 ∷ 7 ∷ 8 ∷ 9 ∷ 10 ∷ 1 ∷ 2 ∷ 3 ∷ 4 ∷ 5 ∷ 6 ∷ 7 ∷ 8 ∷ 9 ∷ 10 ∷ 1 ∷ 2 ∷ 3 ∷ [];
  code_challenge_method = method_s256;
}

consents : (create_consent [] 4 2 7 asked db).0 ≡ ok (new_consent 4 2 7 asked)
unfolding create_consent checked_consent get_oauth_config redirect_allowed parse_allowlist
    split_entries strip lstrip rstrip is_space starts_with text_eq take
consents = refl

consent_redirect_allowed_example :
    OnAllowlist uri (parse_allowlist (get_oauth_config [] db).0)
    × (asked.code_challenge_method ≡ method_s256)
    × (43 ≤ length asked.code_challenge)
    × ((new_consent 4 2 7 asked).redirect_uri ≡ uri)
    × ((new_consent 4 2 7 asked).code_challenge ≡ asked.code_challenge)
    × ((new_consent 4 2 7 asked).member_id ≡ 7)
consent_redirect_allowed_example =
    consent_redirect_allowed [] 4 2 7 asked db (new_consent 4 2 7 asked) consents
