-- ===== src/Access/ModelAccess.antt =====
-- src/ai_api/services/model_access.py: which models a member may see. Sets of tags and of providers are lists.
use ai_api.Base.{
  ℕ, Bool, true, false, not, Option, List, [], ◌∷◌, ◌++◌, map, filter, any, if◌then◌else◌, ◌==◌,
  ◌&&◌, text_eq,
}
use ai_api.Base.Int.{ℤ}
use ai_api.Models.{Text, Instant, Member}
use ai_api.Allocations.{Store}

pub data DefaultAccess : Type 0 where
  open_access restricted : DefaultAccess

abbrev pub is_open : DefaultAccess → Bool
is_open DefaultAccess.open_access = true
is_open DefaultAccess.restricted = false

pub record ModelCatalog : Type 0 where
  pub slug : Text
  pub provider : Text
  pub default_access : DefaultAccess
  pub allowed_tags : List Text
  pub denied_tags : List Text
  pub self_service_enabled : Bool
  pub self_service_default_quota : Option ℤ

pub data TagSource : Type 0 where
  manual auto : TagSource

-- `added_by` and `added_at` are left out
pub record MemberTag : Type 0 where
  pub member_id : ℕ
  pub tag : Text
  pub source : TagSource
  pub rule_id : Option ℕ

-- a provider's key; the secret is encrypted
pub record ProviderKey : Type 0 where
  pub id : ℕ
  pub provider : Text
  pub enc_key : Text
  pub is_active : Bool
  pub last_used_at : Option Instant
  pub created_at : Instant

pub record AccessDb : Type 0 where
  pub model_catalog : List ModelCatalog
  pub member_tags : List MemberTag
  pub provider_credentials : List ProviderKey
  pub store : Store

abbrev pub member_of : List Text → Text → Bool
member_of ts t = any (λ u. text_eq u t) ts

-- whether two sets have a common element
abbrev pub intersects : List Text → List Text → Bool
intersects ts us = any (member_of us) ts

-- the checks of the reason chain
pub data Check : Type 0 where
  credential_gate default_access deny_tags allow_tags : Check

-- `evaluate_visibility`: the answer, and the chain without its texts
unfoldable pub evaluate_visibility :
    ModelCatalog → List Text → List Text → Bool × List (Check × Bool)
evaluate_visibility model tags providers =
    let has_cred = member_of providers model.provider in
    let deny_hits = intersects model.denied_tags tags in
    let allow_hits = intersects model.allowed_tags tags in
    let head : Check × Bool = (credential_gate, has_cred) in
    let middle : List (Check × Bool) =
      head ∷ (default_access, true) ∷ (deny_tags, not deny_hits) ∷ [] in
    if not has_cred
    then (false, head ∷ [])
    else if deny_hits
    then (false, middle)
    else if is_open model.default_access
    then (true, middle)
    else (allow_hits, middle ++ (allow_tags, allow_hits) ∷ [])

-- `access_policy_allows`
unfoldable pub access_policy_allows : ModelCatalog → List Text → Bool
access_policy_allows model tags =
    if intersects model.denied_tags tags
    then false
    else if is_open model.default_access
    then true
    else intersects model.allowed_tags tags

-- `get_member_tags`
unfoldable pub get_member_tags : ℕ → AccessDb → List Text
get_member_tags member db = map (λ r. r.tag) (filter (λ r. r.member_id == member) db.member_tags)

-- `get_providers_with_active_credentials`
unfoldable pub active_providers : AccessDb → List Text
active_providers db = map (λ r. r.provider) (filter (λ r. r.is_active) db.provider_credentials)

-- `is_accessible`
unfoldable pub is_accessible : Member → ModelCatalog → AccessDb → Bool
is_accessible member model db =
    if not (member_of (active_providers db) model.provider)
    then false
    else access_policy_allows model (get_member_tags member.id db)

-- `visible_to_member`
unfoldable pub visible_to_member : Member → List ModelCatalog → AccessDb → List ModelCatalog
visible_to_member member models db =
    filter
      (λ m.
        member_of (active_providers db) m.provider
        && access_policy_allows m (get_member_tags member.id db))
      models
