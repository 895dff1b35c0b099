-- ===== src/Oauth.antt =====
-- src/ai_api/services/oauth.py: the authorization code flow with PKCE. A member consents, the app gets
-- a code, and exchanges it for a key. `s256`, the base64url text of the SHA-256 of a verifier, is an
-- argument; verifiers and challenges are ASCII. The columns `state` and `scope`, which the code only
-- stores, are left out.
pub mod Tables
pub mod Allowlist
pub mod Exchange
pub mod Consent
mod Tests
use ai_api.Base.{
  is_empty, is_none, ℕ, zero, suc, ◌+◌, ◌*◌, Bool, true, false, not, Option, none, some, List, [],
  ◌∷◌, ◌++◌, map, filter, any, length, if◌then◌else◌, Try, ok, raise, get, modify, leb, ltb, ◌==◌,
  ◌&&◌, ◌||◌, text_eq,
}
use ai_api.Models.{Text, Instant, second, Allocation, Credential, GeneratedToken, Member}
use ai_api.Allocations.{Store, AllocationError, allocation_id, member_key}
use ai_api.Allocations.Keys.{listed, create_member_credential}
use ai_api.Base.Strings.{strip, starts_with, take}
use ai_api.Oauth.Allowlist.{parse_allowlist, redirect_allowed}
use ai_api.Oauth.Tables.{
  OauthAuthStatus, awaits_consent, exchangeable, OauthAuthorization, consent_key, code_key, OauthDb,
  OauthError, pending, approved, redirect_uri_not_allowed, invalid_request, not_found,
  invalid_scope, invalid_grant, not_issued, integrity_error,
}

-- `get_oauth_config`: the stored allowlist, which the first reading sets to the configured one
pub get_oauth_config : Text → OauthDb → Text × OauthDb
get_oauth_config default db = elim db.oauth_config [
  | some raw ↦ (raw, db)
  | none ↦ (default, record db { oauth_config = some default })
]

pub record ConsentRequest : Type 0 where
  pub client_name : Text
  pub redirect_uri : Text
  pub code_challenge : Text
  pub code_challenge_method : Text

-- "S256"
abbrev pub method_s256 : Text
method_s256 = b'S' ∷ b'2' ∷ b'5' ∷ b'6' ∷ []

pub new_consent : ℕ → Instant → ℕ → ConsentRequest → OauthAuthorization
new_consent id now member request = record {
  id = id;
  client_name = take 128 (strip request.client_name);
  redirect_uri = request.redirect_uri;
  code_challenge = request.code_challenge;
  member_id = member;
  status = OauthAuthStatus.pending;
  allocation_ids = none;
  code = none;
  credential_id = none;
  created_at = now;
  expires_at = now + 600 * second;
  approved_at = none;
  consumed_at = none;
}

-- `create_consent`, from the read configuration on
pub checked_consent :
    Text → ℕ → Instant → ℕ → ConsentRequest → OauthDb → Try OauthError OauthAuthorization × OauthDb
checked_consent raw id now member request db =
    if not (redirect_allowed request.redirect_uri (parse_allowlist raw))
    then (raise redirect_uri_not_allowed, db)
    else if not (text_eq request.code_challenge_method method_s256)
    then (raise invalid_request, db)
    else if ltb (length request.code_challenge) 43
    then (raise invalid_request, db)
    else if is_empty (strip request.client_name)
    then (raise invalid_request, db)
    else if is_none (get consent_key id db.consents)
    then (
      ok (new_consent id now member request),
      record db { consents = db.consents ++ new_consent id now member request ∷ [] },
    )
    else (raise integrity_error, db)

-- `create_consent`
pub create_consent :
    Text → ℕ → Instant → ℕ → ConsentRequest → OauthDb → Try OauthError OauthAuthorization × OauthDb
create_consent default id now member request db =
    let (raw, db') = get_oauth_config default db in checked_consent raw id now member request db'

abbrev pub expire : OauthAuthorization → OauthAuthorization
expire r = record r { status = OauthAuthStatus.expired }

-- `get_pending`
pub get_pending : Instant → ℕ → ℕ → OauthDb → Option OauthAuthorization × OauthDb
get_pending now id member db = elim (get consent_key id db.consents) [
  | none ↦ (none, db)
  | some row ↦
      if not (row.member_id == member)
      then (none, db)
      else if not (awaits_consent row.status)
      then (none, db)
      else if leb row.expires_at now
      then (none, record db { consents = modify consent_key id expire db.consents })
      else (some row, db)
]

-- the ids of the member's allocations
owned_ids : ℕ → Store → List ℕ
owned_ids member st = map allocation_id (filter (λ a. a.member_id == member) st.allocations)

abbrev pub grant : ℕ → Instant → List ℕ → OauthAuthorization → OauthAuthorization
grant code now ids r = record r {
  allocation_ids = some ids;
  code = some code;
  status = OauthAuthStatus.approved;
  approved_at = some now;
  expires_at = now + 120 * second;
}

-- `approve`, from the pending row on
pub approve_pending :
    ℕ
    → Instant
    → ℕ
    → ℕ
    → List ℕ
    → OauthAuthorization
    → OauthDb
    → Try OauthError OauthAuthorization × OauthDb
approve_pending code now id member ids row db =
    if is_empty ids
    then (raise invalid_scope, db)
    else if any (λ i. not (listed (owned_ids member db.store) i)) ids
    then (raise invalid_scope, db)
    else if is_none (get code_key (suc code) db.consents)
    then (
      ok (grant code now ids row),
      record db { consents = modify consent_key id (grant code now ids) db.consents },
    )
    else (raise integrity_error, db)

-- `approve`; the fresh code is an argument
pub approve : ℕ → Instant → ℕ → ℕ → List ℕ → OauthDb → Try OauthError OauthAuthorization × OauthDb
approve code now id member ids db =
    let (found, db') = get_pending now id member db in
    elim found [
      | none ↦ (raise not_found, db')
      | some row ↦ approve_pending code now id member ids row db'
    ]

abbrev pub refuse : OauthAuthorization → OauthAuthorization
refuse r = record r { status = OauthAuthStatus.denied }

-- `deny`
pub deny : Instant → ℕ → ℕ → OauthDb → Option OauthAuthorization × OauthDb
deny now id member db =
    let (found, db') = get_pending now id member db in
    elim found [
      | none ↦ (none, db')
      | some row ↦
          (some (refuse row), record db' { consents = modify consent_key id refuse db'.consents })
    ]

abbrev pub consume : Instant → ℕ → OauthAuthorization → OauthAuthorization
consume now credential r = record r {
  status = OauthAuthStatus.consumed;
  consumed_at = some now;
  credential_id = some credential;
}

pub record Grant : Type 0 where
  pub code : ℕ
  pub redirect_uri : Text
  pub code_verifier : Text

-- what `exchange` returns
abbrev pub Exchanged : Type 0
Exchanged = Credential × GeneratedToken × OauthAuthorization

-- `row.allocation_ids or []`
abbrev pub ids_or_none : Option (List ℕ) → List ℕ
ids_or_none none = []
ids_or_none (some ids) = ids

-- the key, and the row that it uses up
pub redeem :
    ℕ → GeneratedToken → Instant → OauthAuthorization → OauthDb → Try OauthError Exchanged × OauthDb
redeem fresh token now row db =
    let ids = ids_or_none row.allocation_ids in
    let (made, store) =
      create_member_credential fresh token now row.member_id row.client_name ids db.store in
    elim made [
      | raise e ↦ (raise (not_issued e), record db { store = store })
      | ok (credential, t) ↦ (
        ok (credential, t, consume now credential.id row),
        record db {
          consents = modify consent_key row.id (consume now credential.id) db.consents;
          store = store;
        },
      )
    ]

-- `exchange`, from an approved row on
pub exchange_row :
    (Text → Text)
    → ℕ
    → GeneratedToken
    → Instant
    → Grant
    → OauthAuthorization
    → OauthDb
    → Try OauthError Exchanged × OauthDb
exchange_row s256 fresh token now request row db =
    if leb row.expires_at now
    then (
      raise invalid_grant,
      record db { consents = modify consent_key row.id expire db.consents },
    )
    else if not (text_eq request.redirect_uri row.redirect_uri)
    then (raise invalid_grant, db)
    else if not (text_eq (s256 request.code_verifier) row.code_challenge)
    then (raise invalid_grant, db)
    else if is_none (get member_key row.member_id db.store.members)
    then (raise invalid_grant, db)
    else redeem fresh token now row db

-- `exchange`; the fresh id and token are arguments
pub exchange :
    (Text → Text)
    → ℕ
    → GeneratedToken
    → Instant
    → Grant
    → OauthDb
    → Try OauthError Exchanged × OauthDb
exchange s256 fresh token now request db = elim (get code_key (suc request.code) db.consents) [
  | none ↦ (raise invalid_grant, db)
  | some row ↦
      if exchangeable row.status
      then exchange_row s256 fresh token now request row db
      else (raise invalid_grant, db)
]
