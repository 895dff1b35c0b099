-- ===== src/Allocations/Keys/Revoked.antt =====
-- The keys of src/ai_api/services/allocations.py that have been revoked, under every later call.
use ai_api.Base.{
  ℕ, ◌≡◌, ◌≢◌, inl, inr, true, false, none, some, List, [], ◌∷◌, ◌++◌, arith, All, All-append,
  is_none, modify, find?, ◌==◌, ==_iff, Bool-cases, Try-cases,
}
use ai_api.Models.{Text, Instant, Credential, GeneratedToken}
use ai_api.Allocations.{Store, credential_id, new_credential}
use ai_api.Allocations.Keys.{
  revoked_from, revoke_credential, add_credential, create_member_credential,
}
use ai_api.Allocations.Keys.Lookup.{resolves, lookup_credential_by_token}
use ai_api.Allocations.Keys.Effects.{
  SameKeys, Modifies, Issues, pause-SameKeys, resume-SameKeys, revoke-SameKeys, patch-credentials,
  rename-Modifies, revoke_credential-Modifies, rotate_credential-effect, lookup-effect,
  create-effect, rotate_token-effect,
}
use ai_api.Allocations.Keys.Scopes.{created, unchanged_on_error}
use ai_api.Allocations.Keys.Tokens.{lookup-find, revoke-modify}
use ai_api.Allocations.Keys.Calls.{
  Setting, Call, create_call, pause_call, resume_call, revoke_call, issue_call, add_call,
  patch_call, rename_call, revoke_key_call, rotate_key_call, rotate_token_call, lookup_call, run,
  run_all, fresh_key,
}

-- every row under an id is revoked
abbrev pub Revoked : ℕ → List Credential → Type 0
Revoked id = All (λ c. (c.id == id) ≡ true → is_none c.revoked_at ≡ false)

Revoked-modify :
    (id k : ℕ) (f : Credential → Credential) (rows : List Credential)
    → ((c : Credential) → (f c).id ≡ c.id)
    → ((c : Credential) → is_none c.revoked_at ≡ false → is_none (f c).revoked_at ≡ false)
    → Revoked id rows
    → Revoked id (modify credential_id k f rows)
Revoked-modify id k f [] ids kept h = tt
Revoked-modify id k f (c ∷ rows) ids kept h = elim (Bool-cases (c.id == k)) [
  | inl found ↦
      rw found
        ((λ e. kept c (h.0 (ground (arith, e, ids c)))), Revoked-modify id k f rows ids kept h.1)
  | inr other ↦ rw other (h.0, Revoked-modify id k f rows ids kept h.1)
]

Revoked-revoke_credential :
    (now : Instant) (id : ℕ) (rows : List Credential)
    → Revoked id (modify credential_id id (revoked_from now) rows)
Revoked-revoke_credential now id [] = tt
Revoked-revoke_credential now id (c ∷ rows) =
    ((λ e. ground (arith, e)), Revoked-revoke_credential now id rows)

Revoked-issued :
    (id : ℕ) (rows : List Credential) (c : Credential)
    → (c.id == id) ≡ false
    → Revoked id rows
    → Revoked id (rows ++ c ∷ [])
Revoked-issued id rows c new h = All-append _ rows (c ∷ []) h ((λ e. absurd (cc)), tt)

-- a call under another fresh id
abbrev pub Other : ℕ → Call → Type 0
Other id c = elim (fresh_key c) [ none ↦ Unit | some fresh ↦ (fresh == id) ≡ false ]

Revoked-create_member_credential :
    (id fresh : ℕ) (token : GeneratedToken) (now : Instant) (member : ℕ) (name : Text)
    (ids : List ℕ) (st : Store)
    → (fresh == id) ≡ false
    → Revoked id st.credentials
    → Revoked id (create_member_credential fresh token now member name ids st).1.credentials
unfolding new_credential
Revoked-create_member_credential id fresh token now member name ids st new h =
    elim (Try-cases (create_member_credential fresh token now member name ids st).0) [
      | inr (x, failed) ↦ rw (unchanged_on_error fresh token now member name ids st x failed) h
      | inl ((c, t), made) ↦
          let (row, _, rows) = created fresh token now member name ids st c t made in
          rw rows (Revoked-issued id st.credentials c (own c row) h)
    ]
  where
    own : (c : Credential) → c ≡ new_credential fresh member name token now → (c.id == id) ≡ false
    own c row = rw row new

Revoked-SameKeys :
    (id : ℕ) (st st' : Store)
    → SameKeys st st'
    → Revoked id st.credentials
    → Revoked id st'.credentials
Revoked-SameKeys id st st' same h = rw (same.0) h

Revoked-Modifies :
    (id : ℕ) (st st' : Store)
    → Modifies st st'
    → Revoked id st.credentials
    → Revoked id st'.credentials
Revoked-Modifies id st st' (k, f, ids, kept, rows, _) h =
    rw rows (Revoked-modify id k f st.credentials ids kept h)

Revoked-Issues :
    (id fresh : ℕ) (st st' : Store)
    → (fresh == id) ≡ false
    → Issues fresh st st'
    → Revoked id st.credentials
    → Revoked id st'.credentials
Revoked-Issues id fresh st st' new (c, _, own, _, rows, _) h =
    rw rows (Revoked-issued id st.credentials c (ground (arith, own, new)) h)

Revoked-run :
    (s : Setting) (id : ℕ) (c : Call) (st : Store)
    → Other id c
    → Revoked id st.credentials
    → Revoked id (run s c st).credentials
unfolding run add_credential
Revoked-run s id (create_call fresh now request) st new h =
    elim (create-effect s.default_name fresh now request st) [
      | inl same ↦ Revoked-SameKeys id st (run s (create_call fresh now request) st) same h
      | inr made ↦
          Revoked-Issues id fresh.credential st (run s (create_call fresh now request) st) new made
            h
    ]
Revoked-run s id (pause_call k) st new h =
    Revoked-SameKeys id st (run s (pause_call k) st) (pause-SameKeys k st) h
Revoked-run s id (resume_call k) st new h =
    Revoked-SameKeys id st (run s (resume_call k) st) (resume-SameKeys k st) h
Revoked-run s id (revoke_call now k) st new h =
    Revoked-SameKeys id st (run s (revoke_call now k) st) (revoke-SameKeys now k st) h
Revoked-run s id (issue_call fresh token now member name ids) st new h =
    Revoked-create_member_credential id fresh token now member name ids st new h
Revoked-run s id (add_call fresh token now a name) st new h =
    Revoked-create_member_credential id fresh token now a.member_id name (a.id ∷ []) st new h
Revoked-run s id (patch_call k add remove) st new h = rw (patch-credentials k add remove st) h
Revoked-run s id (rename_call k name) st new h =
    Revoked-Modifies id st (run s (rename_call k name) st) (rename-Modifies k name st) h
Revoked-run s id (revoke_key_call now k) st new h =
    Revoked-Modifies id st (run s (revoke_key_call now k) st) (revoke_credential-Modifies now k st)
      h
Revoked-run s id (rotate_key_call token k) st new h = elim (rotate_credential-effect token k st) [
  | inl same ↦ Revoked-SameKeys id st (run s (rotate_key_call token k) st) same h
  | inr changed ↦ Revoked-Modifies id st (run s (rotate_key_call token k) st) changed h
]
Revoked-run s id (rotate_token_call fresh token now k) st new h =
    elim (rotate_token-effect s.default_name fresh token now k st) [
      | inl same ↦ Revoked-SameKeys id st (run s (rotate_token_call fresh token now k) st) same h
      | inr (inl changed) ↦
          Revoked-Modifies id st (run s (rotate_token_call fresh token now k) st) changed h
      | inr (inr made) ↦
          Revoked-Issues id fresh st (run s (rotate_token_call fresh token now k) st) new made h
    ]
Revoked-run s id (lookup_call now plaintext) st new h =
    elim (lookup-effect s.fingerprint_for now plaintext st) [
      | inl same ↦ Revoked-SameKeys id st (run s (lookup_call now plaintext) st) same h
      | inr changed ↦ Revoked-Modifies id st (run s (lookup_call now plaintext) st) changed h
    ]

Revoked-run_all :
    (s : Setting) (id : ℕ) (calls : List Call) (st : Store)
    → All (Other id) calls
    → Revoked id st.credentials
    → Revoked id (run_all s calls st).credentials
unfolding run_all
Revoked-run_all s id [] st others h = h
Revoked-run_all s id (c ∷ calls) st others h =
    Revoked-run_all s id calls (run s c st) others.1 (Revoked-run s id c st others.0 h)

Revoked-find :
    (id fingerprint : ℕ) (rows : List Credential) (c : Credential)
    → Revoked id rows
    → find? (resolves fingerprint) rows ≡ some c
    → c.id ≢ id
Revoked-find id fingerprint [] c h found = λ e. cc
Revoked-find id fingerprint (x ∷ rows) c h found =
    ground (arith, found, h.0, ==_iff x.id id, Revoked-find id fingerprint rows c h.1)

-- A revoked key is of no use for good: after it has been revoked, and whatever calls of the service follow that
-- issue no key under its id, no token resolves to it.
pub revoked_for_good :
    (s : Setting) (now later : Instant) (id : ℕ) (calls : List Call) (p : Text) (st : Store)
    (c : Credential)
    → All (Other id) calls
    → (lookup_credential_by_token s.fingerprint_for later p
        (run_all s calls (revoke_credential now id st).1)).0
      ≡ some c
    → c.id ≢ id
revoked_for_good s now later id calls p st c others h =
    let st' = (revoke_credential now id st).1 in
    let ended : Revoked id st'.credentials =
      rw (revoke-modify now id st) (Revoked-revoke_credential now id st.credentials) in
    let (d, found, same) = lookup-find s.fingerprint_for later p (run_all s calls st') c h in
    rw same (
      Revoked-find id (s.fingerprint_for p) (run_all s calls st').credentials d
        (Revoked-run_all s id calls st' others ended) found)
