-- ===== src/Oauth/Tables.antt =====
-- The rows of src/ai_api/services/oauth.py and its errors.
use ai_api.Base.{ℕ, suc, Bool, true, false, Option, none, some, List}
use ai_api.Models.{Text, Instant}
use ai_api.Allocations.{Store, AllocationError}

pub data OauthAuthStatus : Type 0 where
  pending approved consumed denied expired : OauthAuthStatus

abbrev pub awaits_consent : OauthAuthStatus → Bool
awaits_consent OauthAuthStatus.pending = true
awaits_consent _ = false

abbrev pub exchangeable : OauthAuthStatus → Bool
exchangeable OauthAuthStatus.approved = true
exchangeable _ = false

-- `code` is an opaque text, and a number here.
pub record OauthAuthorization : Type 0 where
  pub id : ℕ
  pub client_name : Text
  pub redirect_uri : Text
  pub code_challenge : Text
  pub member_id : ℕ
  pub status : OauthAuthStatus
  pub allocation_ids : Option (List ℕ)
  pub code : Option ℕ
  pub credential_id : Option ℕ
  pub created_at : Instant
  pub expires_at : Instant
  pub approved_at : Option Instant
  pub consumed_at : Option Instant

abbrev pub consent_key : OauthAuthorization → ℕ
consent_key r = r.id

-- the unique column `code` as a key; 0 stands for NULL
abbrev pub code_key : OauthAuthorization → ℕ
code_key r = elim r.code [ none ↦ 0 | some c ↦ suc c ]

pub record OauthDb : Type 0 where
  pub oauth_config : Option Text
  pub consents : List OauthAuthorization
  pub store : Store

-- the codes of `OAuthError`, an error of the allocation service, and a unique column that refuses
pub data OauthError : Type 0 where
  redirect_uri_not_allowed invalid_request not_found invalid_scope invalid_grant : OauthError
  not_issued : AllocationError → OauthError
  integrity_error : OauthError
