-- ===== src/Allocations/Keys.antt =====
-- The application keys of src/ai_api/services/allocations.py: token resolution, scopes, revocation
-- and rotation of keys. `fingerprint_for` of services/credentials.py is an argument.
pub mod Owned
pub mod Patching
pub mod Lookup
pub mod Resolution
pub mod Unique
pub mod Scopes
pub mod Tokens
pub mod Calls
pub mod Effects
pub mod Constraint
pub mod Revoked
mod Tests
use ai_api.Base.{
  is_none, is_empty, ℕ, ◌-◌, ◌*◌, Bool, true, false, Option, none, some, List, [], ◌∷◌, ◌++◌, map,
  filter, find?, any, if◌then◌else◌, Try, ok, raise, get, modify, ltb, ◌&&◌, ◌||◌, ◌==◌, not,
  text_eq, has_slash, strip_provider,
}
use ai_api.Models.{
  Text, Instant, second, Allocation, is_active, Credential, CredentialAllocation, GeneratedToken,
}
use ai_api.Allocations.{
  Store, AllocationError, value_error, permission_error, integrity_error, allocation_id,
  credential_id, link_of, issue, new_credential,
}
use ai_api.Allocations.Keys.Lookup.{in_scope}

-- `list(dict.fromkeys(ids))`: the first of equal ids stays
unfoldable pub dedupe_from : List ℕ → List ℕ → List ℕ
dedupe_from seen [] = []
dedupe_from seen (i ∷ ids) =
    let rest = dedupe_from (i ∷ seen) ids in if any (λ j. j == i) seen then rest else i ∷ rest

unfoldable pub dedupe : List ℕ → List ℕ
unfolding dedupe_from
dedupe = dedupe_from []

-- the loop of `_owned_allocations` over the ids, with the models met so far
unfoldable pub owned_from :
    ℕ → List Allocation → List Text → List ℕ → Try AllocationError (List Allocation)
owned_from member rows models [] = ok []
owned_from member rows models (i ∷ ids) = elim (get allocation_id i rows) [
  | none ↦ raise permission_error
  | some a ↦
      let rest = owned_from member rows (a.resource_model ∷ models) ids in
      if not (a.member_id == member)
      then raise permission_error
      else if any (λ t. text_eq t a.resource_model) models
      then raise value_error
      else elim rest [ ok found ↦ ok (a ∷ found) | raise e ↦ raise e ]
]

-- `_owned_allocations`
unfoldable pub owned_allocations : ℕ → List ℕ → Store → Try AllocationError (List Allocation)
owned_allocations member ids st = owned_from member st.allocations [] (dedupe ids)

-- `create_member_credential`; the fresh id and token are arguments
unfoldable pub create_member_credential :
    ℕ
    → GeneratedToken
    → Instant
    → ℕ
    → Text
    → List ℕ
    → Store
    → Try AllocationError (Credential × GeneratedToken) × Store
create_member_credential fresh token now member name [] st = (raise value_error, st)
create_member_credential fresh token now member name (i ∷ ids) st =
    elim (owned_allocations member (i ∷ ids) st) [
      | raise e ↦ (raise e, st)
      | ok found ↦
          let c = new_credential fresh member name token now in
          (ok (c, token), issue c (map (link_of c) found) st)
    ]

-- `add_credential`
unfoldable pub add_credential :
    ℕ
    → GeneratedToken
    → Instant
    → Allocation
    → Text
    → Store
    → Try AllocationError (Credential × GeneratedToken) × Store
add_credential fresh token now a name st =
    create_member_credential fresh token now a.member_id name (a.id ∷ []) st

abbrev pub listed : List ℕ → ℕ → Bool
listed ids i = any (λ j. j == i) ids

-- the links that a patch takes out
abbrev pub removed : Credential → List ℕ → CredentialAllocation → Bool
removed c remove l = in_scope c l && listed remove l.allocation_id

-- whether an allocation's model is among those of the links
abbrev pub meets : List CredentialAllocation → Allocation → Bool
meets links a = any (λ l. text_eq l.resource_model a.resource_model) links

-- The flush emits the INSERTs before the DELETEs, so an addition of a removed link's model violates
-- UNIQUE(credential_id, resource_model).
pub flush_scope :
    Credential → List ℕ → List Allocation → Store → Try AllocationError (Option Credential) × Store
flush_scope c remove added st =
    if any (meets (filter (in_scope c) st.links)) added then (raise integrity_error, st) else (
      ok (some c),
      record st {
        links = filter (λ l. not (removed c remove l)) st.links ++ map (link_of c) added;
      },
    )

-- `patch_credential_scope`, from the additions on
pub patch_with :
    Credential → List ℕ → List Allocation → Store → Try AllocationError (Option Credential) × Store
patch_with c remove added st =
    let kept = filter (λ l. not (listed remove l.allocation_id)) (filter (in_scope c) st.links) in
    if any (meets kept) added
    then (raise value_error, st)
    else if is_empty kept && is_empty added
    then (raise value_error, st)
    else flush_scope c remove added st

-- `patch_credential_scope`, from the key on
pub patch_key :
    Credential → List ℕ → List ℕ → Store → Try AllocationError (Option Credential) × Store
patch_key c add remove st =
    let mine = map (λ l. l.allocation_id) (filter (in_scope c) st.links) in
    elim (owned_allocations c.member_id (filter (λ i. not (listed mine i)) add) st) [
      | raise e ↦ (raise e, st)
      | ok added ↦ patch_with c remove added st
    ]

-- `patch_credential_scope`
pub patch_credential_scope :
    ℕ → List ℕ → List ℕ → Store → Try AllocationError (Option Credential) × Store
patch_credential_scope id add remove st = elim (get credential_id id st.credentials) [
  | none ↦ (ok none, st)
  | some c ↦ patch_key c add remove st
]

-- `rename_credential`
unfoldable pub rename_credential : ℕ → Text → Store → Option Credential × Store
rename_credential id name st = elim (get credential_id id st.credentials) [
  | none ↦ (none, st)
  | some c ↦ (
    some (record c { name = name }),
    record st {
      credentials = modify credential_id id (λ r. record r { name = name }) st.credentials;
    },
  )
]

-- `credential_in_allocation_scope`
pub credential_in_allocation_scope : ℕ → ℕ → Store → Bool
credential_in_allocation_scope cid aid st =
    any (λ l. l.credential_id == cid && l.allocation_id == aid) st.links

abbrev pub revoked_from : Instant → Credential → Credential
revoked_from now c = if is_none c.revoked_at then record c { revoked_at = some now } else c

-- `revoke_credential`
pub revoke_credential : Instant → ℕ → Store → Option Credential × Store
revoke_credential now id st = elim (get credential_id id st.credentials) [
  | none ↦ (none, st)
  | some c ↦ (
    some (revoked_from now c),
    record st { credentials = modify credential_id id (revoked_from now) st.credentials },
  )
]

abbrev pub rotated : GeneratedToken → Credential → Credential
rotated token c = record c { token_fingerprint = token.fingerprint; last_used_at = none }

-- `rotate_credential`
pub rotate_credential :
    GeneratedToken → ℕ → Store → Try AllocationError (Option (Credential × GeneratedToken)) × Store
rotate_credential token id st = elim (get credential_id id st.credentials) [
  | none ↦ (ok none, st)
  | some c ↦
      if is_none c.revoked_at
      then (
        ok (some (rotated token c, token)),
        record st { credentials = modify credential_id id (rotated token) st.credentials },
      )
      else (raise value_error, st)
]

-- the keys whose scope has an allocation, in the order of the table
unfoldable pub scoped_keys : ℕ → Store → List Credential
scoped_keys id st = filter (λ c. credential_in_allocation_scope c.id id st) st.credentials

abbrev pub replaced : GeneratedToken → Instant → Credential → Credential
replaced token now c = record c { token_fingerprint = token.fingerprint; created_at = now }

-- `rotate_token`: the first key in force gets the token, or a new default key does.
unfoldable pub rotate_token :
    Text
    → ℕ
    → GeneratedToken
    → Instant
    → ℕ
    → Store
    → Try AllocationError (Option (Allocation × GeneratedToken)) × Store
unfolding scoped_keys
rotate_token default_name fresh token now id st = elim (get allocation_id id st.allocations) [
  | none ↦ (ok none, st)
  | some a ↦
      if not (is_active a.status)
      then (raise value_error, st)
      else elim (find? (λ c. is_none c.revoked_at) (scoped_keys id st)) [
        | some c ↦ (
          ok (some (a, token)),
          record st { credentials = modify credential_id c.id (replaced token now) st.credentials },
        )
        | none ↦
            let c = new_credential fresh a.member_id default_name token now in
            (ok (some (a, token)), issue c (link_of c a ∷ []) st)
      ]
]
