-- ===== src/Allocations/Keys/Lookup.antt =====
-- The resolution of a token and a model in src/ai_api/services/allocations.py. `fingerprint_for` of
-- services/credentials.py is an argument.
use ai_api.Base.{
  is_none, ℕ, ◌-◌, ◌*◌, Bool, Option, none, some, List, [], ◌∷◌, map, filter, find?, if◌then◌else◌,
  get, modify, ltb, ◌&&◌, ◌==◌, text_eq, has_slash, strip_provider,
}
use ai_api.Models.{Text, Instant, second, Allocation, is_active, Credential, CredentialAllocation}
use ai_api.Allocations.{Store, allocation_id, credential_id}

-- the WHERE clause of the lookup by token
abbrev pub resolves : ℕ → Credential → Bool
resolves fingerprint c = c.token_fingerprint == fingerprint && is_none c.revoked_at

-- `last_used_at` is written at most every 300 seconds.
unfoldable pub touched : Instant → Credential → Credential
touched now c =
    let used = record c { last_used_at = some now } in
    elim c.last_used_at [
      | none ↦ used
      | some last ↦ if ltb (300 * second) (now - last) then used else c
    ]

-- `lookup_credential_by_token`
unfoldable pub lookup_credential_by_token :
    (Text → ℕ) → Instant → Text → Store → Option Credential × Store
unfolding touched
lookup_credential_by_token fingerprint_for now plaintext st =
    elim (find? (resolves (fingerprint_for plaintext)) st.credentials) [
      | none ↦ (none, st)
      | some c ↦ (
        some (touched now c),
        record st { credentials = modify credential_id c.id (touched now) st.credentials },
      )
    ]

-- the rows of a join of links with allocations
unfoldable pub joined : List CredentialAllocation → List Allocation → List Allocation
joined [] rows = []
joined (l ∷ ls) rows =
    let rest = joined ls rows in
    elim (get allocation_id l.allocation_id rows) [ none ↦ rest | some a ↦ a ∷ rest ]

abbrev pub in_scope : Credential → CredentialAllocation → Bool
in_scope c l = l.credential_id == c.id

unfoldable pub scope_allocations : Credential → Store → List Allocation
scope_allocations c st = joined (filter (in_scope c) st.links) st.allocations

unfoldable pub exact_allocation : Credential → Text → Store → Option Allocation
exact_allocation c model st =
    elim (find? (λ l. in_scope c l && text_eq l.resource_model model) st.links) [
      | none ↦ none
      | some l ↦ get allocation_id l.allocation_id st.allocations
    ]

-- `matches[0] if len(matches) == 1 else None`
abbrev pub only_one {ℓ} : {A : Type ℓ} → List A → Option A
only_one (x ∷ []) = some x
only_one _ = none

-- `resolve_scope_allocation`
unfoldable pub resolve_scope_allocation : Credential → Text → Store → Option Allocation
resolve_scope_allocation c model st = elim (exact_allocation c model st) [
  | some a ↦ some a
  | none ↦
      if has_slash model
      then none
      else only_one
          (filter (λ a. text_eq (strip_provider a.resource_model) model) (scope_allocations c st))
]

-- `scope_models`, before the sort
scope_models : Credential → Store → List Text
scope_models c st = map (λ l. l.resource_model) (filter (in_scope c) st.links)

-- `list_active_scope_allocations`, before the sort
list_active_scope_allocations : Credential → Store → List Allocation
list_active_scope_allocations c st =
    filter (λ a. is_active a.status) (joined (filter (in_scope c) st.links) st.allocations)
