-- ===== src/Allocations/Keys/Tokens.antt =====
-- Tokens after a revocation and a rotation of src/ai_api/services/allocations.py, at the next lookup.
use ai_api.Base.{
  ℕ, ◌≡◌, ◌≢◌, ◌∙◌, true, false, none, some, List, [], ◌∷◌, ◌++◌, arith, inl, inr, ok, get, modify,
  get-modify_ne, modify-missing, key-get, find?, All, ==_iff, Option-cases,
}
use ai_api.Models.{Text, Instant, Credential, GeneratedToken}
use ai_api.Allocations.{Store, credential_id}
use ai_api.Allocations.Keys.{revoked_from, revoke_credential, rotated, rotate_credential}
use ai_api.Allocations.Keys.Lookup.{resolves, touched, lookup_credential_by_token}

abbrev NoKey : ℕ → Credential → Type 0
NoKey id c = c.id ≢ id

id-touched : (now : Instant) (c : Credential) → (touched now c).id ≡ c.id
unfolding touched
id-touched now c = ground arith

-- The key that a lookup returns is the first one that resolves.
pub lookup-find :
    (fp : Text → ℕ) (now : Instant) (p : Text) (st : Store) (c : Credential)
    → (lookup_credential_by_token fp now p st).0 ≡ some c
    → (d : Credential) × (find? (resolves (fp p)) st.credentials ≡ some d) × (c.id ≡ d.id)
unfolding lookup_credential_by_token
lookup-find fp now p st c h = elim (Option-cases (find? (resolves (fp p)) st.credentials)) [
  | inl missing ↦ absurd (ground (arith, missing))
  | inr (d, e) ↦ (d, e, ground (arith, e, id-touched now d))
]

find-modify_ne :
    (fingerprint id : ℕ) (f : Credential → Credential) (rows : List Credential) (c : Credential)
    → ((x : Credential) → x.id ≡ id → resolves fingerprint (f x) ≡ false)
    → find? (resolves fingerprint) (modify credential_id id f rows) ≡ some c
    → c.id ≢ id
find-modify_ne fingerprint id f [] c never h = λ e. cc
find-modify_ne fingerprint id f (x ∷ rows) c never h =
    ground (arith, never x, find-modify_ne fingerprint id f rows c never, ==_iff x.id id)

lookup-modify_ne :
    (fp : Text → ℕ) (later : Instant) (p : Text) (id : ℕ) (f : Credential → Credential) (st : Store)
    (c : Credential)
    → ((x : Credential) → x.id ≡ id → resolves (fp p) (f x) ≡ false)
    → (lookup_credential_by_token fp later p
        (record st { credentials = modify credential_id id f st.credentials })).0
      ≡ some c
    → c.id ≢ id
lookup-modify_ne fp later p id f st c never h =
    let st' : Store = record st { credentials = modify credential_id id f st.credentials } in
    let (d, e, same) = lookup-find fp later p st' c h in
    rw same (find-modify_ne (fp p) id f st.credentials d never e)

pub revoke-modify :
    (now : Instant) (id : ℕ) (st : Store)
    → (revoke_credential now id st).1
      ≡ record st { credentials = modify credential_id id (revoked_from now) st.credentials }
unfolding revoke_credential
revoke-modify now id st =
    ground (arith, modify-missing credential_id id (revoked_from now) st.credentials)

-- After a key is revoked no token resolves to it, and every other key's row is what it was.
pub revoke_ends_key :
    (fp : Text → ℕ) (now later : Instant) (id : ℕ) (p : Text) (st : Store)
    → let st' = (revoke_credential now id st).1 in
      ((c : Credential) → (lookup_credential_by_token fp later p st').0 ≡ some c → c.id ≢ id)
      × ((j : ℕ)
          → id ≢ j
          → get credential_id j st'.credentials ≡ get credential_id j st.credentials)
revoke_ends_key fp now later id p st = rw (revoke-modify now id st) (
  (λ c. lookup-modify_ne fp later p id (revoked_from now) st c (λ x e. ground arith)),
  (λ j. get-modify_ne credential_id id j (revoked_from now) st.credentials (λ x. ground arith)),
)

rotate-modify :
    (token : GeneratedToken) (id : ℕ) (st : Store) (r : Credential × GeneratedToken)
    → (rotate_credential token id st).0 ≡ ok (some r)
    → (rotate_credential token id st).1
      ≡ record st { credentials = modify credential_id id (rotated token) st.credentials }
unfolding rotate_credential
rotate-modify token id st r h = ground arith

find-modify_new :
    (fingerprint id : ℕ) (f : Credential → Credential) (rows : List Credential) (c : Credential)
    → All (λ x. resolves fingerprint x ≡ false) rows
    → get credential_id id rows ≡ some c
    → resolves fingerprint (f c) ≡ true
    → (f c).id ≡ id
    → find? (resolves fingerprint) (modify credential_id id f rows) ≡ some (f c)
find-modify_new fingerprint id f [] c unused h hit keeps = cc
find-modify_new fingerprint id f (x ∷ rows) c unused h hit keeps =
    ground (arith, find-modify_new fingerprint id f rows c unused.1)

rotate-row :
    (token : GeneratedToken) (id : ℕ) (st : Store) (r : Credential × GeneratedToken)
    → (rotate_credential token id st).0 ≡ ok (some r)
    → (c : Credential) × (get credential_id id st.credentials ≡ some c) × (c.revoked_at ≡ none)
unfolding rotate_credential
rotate-row token id st r h = elim (Option-cases (get credential_id id st.credentials)) [
  | inl gone ↦ absurd (ground (arith, gone))
  | inr (c, e) ↦ (c, e, ground (arith, e))
]

found_after :
    (fp : Text → ℕ) (token : GeneratedToken) (later : Instant) (id : ℕ) (st : Store)
    (c : Credential)
    → fp token.plaintext ≡ token.fingerprint
    → All (λ x. resolves token.fingerprint x ≡ false) st.credentials
    → get credential_id id st.credentials ≡ some c
    → c.revoked_at ≡ none
    → (d : Credential) × ((lookup_credential_by_token fp later token.plaintext
          (record st { credentials = modify credential_id id (rotated token) st.credentials })).0
        ≡ some d)
      × (d.id ≡ id)
unfolding lookup_credential_by_token
found_after fp token later id st c own unused e live =
    let same = key-get credential_id id st.credentials c e in
    let found =
      find-modify_new token.fingerprint id (rotated token) st.credentials c unused e (ground arith)
        same in
    (
      touched later (rotated token c),
      ground (arith, own, found),
      id-touched later (rotated token c) ∙ same,
    )

-- After a key is rotated, a token with another fingerprint than the new one no longer resolves to it,
-- and the new token does, if no key resolved under its fingerprint before.
pub rotate_replaces_token :
    (fp : Text → ℕ) (token : GeneratedToken) (later : Instant) (id : ℕ) (p : Text) (st : Store)
    (r : Credential × GeneratedToken)
    → fp token.plaintext ≡ token.fingerprint
    → fp p ≢ token.fingerprint
    → All (λ x. resolves token.fingerprint x ≡ false) st.credentials
    → (rotate_credential token id st).0 ≡ ok (some r)
    → let st' = (rotate_credential token id st).1 in
      ((c : Credential) → (lookup_credential_by_token fp later p st').0 ≡ some c → c.id ≢ id)
      × ((c : Credential) × ((lookup_credential_by_token fp later token.plaintext st').0 ≡ some c)
          × (c.id ≡ id))
rotate_replaces_token fp token later id p st r own other unused h =
    let (c, e, live) = rotate-row token id st r h in
    rw (rotate-modify token id st r h) (
      (λ d. lookup-modify_ne fp later p id (rotated token) st d (λ x q. ground arith)),
      found_after fp token later id st c own unused e live,
    )

find-append_new :
    (fingerprint : ℕ) (rows : List Credential) (c : Credential)
    → All (λ x. resolves fingerprint x ≡ false) rows
    → resolves fingerprint c ≡ true
    → find? (resolves fingerprint) (rows ++ c ∷ []) ≡ some c
find-append_new fingerprint [] c unused hit = ground arith
find-append_new fingerprint (x ∷ rows) c unused hit =
    ground (arith, find-append_new fingerprint rows c unused.1)

member-touched : (now : Instant) (c : Credential) → (touched now c).member_id ≡ c.member_id
unfolding touched
member-touched now c = ground arith

-- A new key is found by its token.
pub lookup_issued :
    (fp : Text → ℕ) (later : Instant) (p : Text) (rows : List Credential) (c : Credential)
    (st : Store)
    → st.credentials ≡ rows ++ c ∷ []
    → All (λ x. resolves (fp p) x ≡ false) rows
    → resolves (fp p) c ≡ true
    → (d : Credential) × ((lookup_credential_by_token fp later p st).0 ≡ some d)
      × (d.id ≡ c.id)
      × (d.member_id ≡ c.member_id)
unfolding lookup_credential_by_token
lookup_issued fp later p rows c st table unused hit =
    let found : find? (resolves (fp p)) st.credentials ≡ some c =
      rw table (find-append_new (fp p) rows c unused hit) in
    (touched later c, ground (arith, found), id-touched later c, member-touched later c)
