-- ===== src/Allocations/Keys/Effects.antt =====
-- Which tables of keys and links the calls of src/ai_api/services/allocations.py write.
use ai_api.Base.{
  ℕ, ◌≡◌, ◌⊎◌, ◌∙◌, ap, refl, inl, inr, false, List, [], ◌∷◌, ◌++◌, arith, is_none, get, modify,
  modify-missing, find?, text_eq, Bool-cases, Option-cases,
}
use ai_api.Models.{
  Text, Instant, Credential, CredentialAllocation, GeneratedToken, Member, is_active,
}
use ai_api.Allocations.{
  Store, Request, Fresh, allocation_id, credential_id, member_key, create, create_for,
  ensure_external_member, pause, resume, revoke, audited, lock_reclaim, issue, new_credential,
  link_of,
}
use ai_api.Allocations.Keys.{
  revoked_from, revoke_credential, rotated, rotate_credential, replaced, rotate_token, scoped_keys,
  rename_credential, patch_credential_scope, patch_key, patch_with, flush_scope,
}
use ai_api.Allocations.Keys.Lookup.{resolves, touched, lookup_credential_by_token}

-- a store whose keys and links are those of another
abbrev pub SameKeys : Store → Store → Type 0
SameKeys st st' = (st'.credentials ≡ st.credentials) × (st'.links ≡ st.links)

pub pause-SameKeys : (id : ℕ) (st : Store) → SameKeys st (pause id st).1
unfolding pause audited
pause-SameKeys id st = ground arith

pub resume-SameKeys : (id : ℕ) (st : Store) → SameKeys st (resume id st).1
unfolding resume audited
resume-SameKeys id st = ground arith

pub revoke-SameKeys : (now : Instant) (id : ℕ) (st : Store) → SameKeys st (revoke now id st).1
unfolding revoke lock_reclaim audited
revoke-SameKeys now id st = ground arith

pub patch-credentials :
    (id : ℕ) (add remove : List ℕ) (st : Store)
    → (patch_credential_scope id add remove st).1.credentials ≡ st.credentials
unfolding patch_credential_scope patch_key patch_with flush_scope
patch-credentials id add remove st = ground arith

-- one key changed that keeps its id and, where it is revoked, stays so
abbrev pub Modifies : Store → Store → Type 0
Modifies st st' =
    (k : ℕ) × (f : Credential → Credential) × ((c : Credential) → (f c).id ≡ c.id)
    × ((c : Credential) → is_none c.revoked_at ≡ false → is_none (f c).revoked_at ≡ false)
    × (st'.credentials ≡ modify credential_id k f st.credentials)
    × (st'.links ≡ st.links)

pub rename-Modifies :
    (id : ℕ) (name : Text) (st : Store) → Modifies st (rename_credential id name st).1
unfolding rename_credential
rename-Modifies id name st =
    let f = λ (c : Credential). record c { name = name } in
    let missing = modify-missing credential_id id f st.credentials in
    (id, f, (λ c. refl), (λ c h. h), ground (arith, missing), ground arith)

pub revoke_credential-Modifies :
    (now : Instant) (id : ℕ) (st : Store) → Modifies st (revoke_credential now id st).1
unfolding revoke_credential
revoke_credential-Modifies now id st =
    let missing = modify-missing credential_id id (revoked_from now) st.credentials in
    (
      id,
      revoked_from now,
      (λ c. ground arith),
      (λ c h. ground (arith, h)),
      ground (arith, missing),
      ground arith,
    )

pub rotate_credential-effect :
    (token : GeneratedToken) (id : ℕ) (st : Store)
    → SameKeys st (rotate_credential token id st).1 ⊎ Modifies st (rotate_credential token id st).1
unfolding rotate_credential
rotate_credential-effect token id st = elim (Option-cases (get credential_id id st.credentials)) [
  | inl unknown ↦ inl (ground (arith, unknown))
  | inr (c, known) ↦ elim (Bool-cases (is_none c.revoked_at)) [
    | inl live ↦ inr (
      id,
      rotated token,
      (λ d. refl),
      (λ d h. h),
      ground (arith, known, live),
      ground (arith, known, live),
    )
    | inr ended ↦ inl (ground (arith, known, ended))
  ]
]

pub lookup-effect :
    (fp : Text → ℕ) (now : Instant) (plaintext : Text) (st : Store)
    → SameKeys st (lookup_credential_by_token fp now plaintext st).1
      ⊎ Modifies st (lookup_credential_by_token fp now plaintext st).1
unfolding lookup_credential_by_token touched
lookup-effect fp now plaintext st =
    elim (Option-cases (find? (resolves (fp plaintext)) st.credentials)) [
      | inl unknown ↦ inl (ground (arith, unknown))
      | inr (c, known) ↦ inr (
        c.id,
        touched now,
        (λ d. ground arith),
        (λ d h. ground (arith, h)),
        ground (arith, known),
        ground (arith, known),
      )
    ]

-- one key issued, with one link
abbrev pub Issues : ℕ → Store → Store → Type 0
Issues fresh st st' =
    (c : Credential) × (l : CredentialAllocation) × (c.id ≡ fresh)
    × (l.credential_id ≡ fresh)
    × (st'.credentials ≡ st.credentials ++ c ∷ [])
    × (st'.links ≡ st.links ++ l ∷ [])

create_for-Issues :
    (default_name : Text) (fresh : Fresh) (now : Instant) (request : Request) (m : Member)
    (st : Store)
    → Issues fresh.credential st (create_for default_name fresh now request m st).1
unfolding create_for issue new_credential
create_for-Issues default_name fresh now request m st = (_, _, refl, refl, refl, refl)

ensure-SameKeys :
    (id : ℕ) (subject : Text) (st : Store) → SameKeys st (ensure_external_member id subject st).1
unfolding ensure_external_member
ensure-SameKeys id subject st = ground arith

create-cases :
    (default_name : Text) (fresh : Fresh) (now : Instant) (request : Request) (st : Store)
    → ((create default_name fresh now request st).1 ≡ st)
      ⊎ ((m : Member) × (st' : Store) × SameKeys st st'
          × ((create default_name fresh now request st).1
              ≡ (create_for default_name fresh now request m st').1))
unfolding create
create-cases default_name fresh now request st =
    elim (Bool-cases (text_eq request.resource_model [])) [
      | inl nothing ↦ inl (ground (arith, nothing))
      | inr model ↦ elim (Option-cases request.member_id) [
        | inr (id, given) ↦ elim (Option-cases (get member_key id st.members)) [
          | inl unknown ↦ inl (ground (arith, model, given, unknown))
          | inr (m, known) ↦ inr (m, st, (refl, refl), ground (arith, model, given, known))
        ]
        | inl not_given ↦ elim (Option-cases request.subject) [
          | inl nobody ↦ inl (ground (arith, model, not_given, nobody))
          | inr (subject, named) ↦
              let ensured = ensure_external_member fresh.member subject st in
              inr (
                ensured.0,
                ensured.1,
                ensure-SameKeys fresh.member subject st,
                ground (arith, model, not_given, named),
              )
        ]
      ]
    ]

pub create-effect :
    (default_name : Text) (fresh : Fresh) (now : Instant) (request : Request) (st : Store)
    → SameKeys st (create default_name fresh now request st).1
      ⊎ Issues fresh.credential st (create default_name fresh now request st).1
create-effect default_name fresh now request st =
    elim (create-cases default_name fresh now request st) [
      | inl same ↦ inl (rw same (refl, refl))
      | inr (m, st', kept, made) ↦
          let (c, l, id, link, rows, links) =
            create_for-Issues default_name fresh now request m st' in
          inr (
            rw made (
              c,
              l,
              id,
              link,
              rows ∙ ap (λ t. t ++ c ∷ []) kept.0,
              links ∙ ap (λ t. t ++ l ∷ []) kept.1,
            ))
    ]

-- the first key in force gets a token, or a new key does, or nothing happens
pub rotate_token-effect :
    (default_name : Text) (fresh : ℕ) (token : GeneratedToken) (now : Instant) (id : ℕ) (st : Store)
    → let st' = (rotate_token default_name fresh token now id st).1 in
      SameKeys st st' ⊎ (Modifies st st' ⊎ Issues fresh st st')
unfolding rotate_token issue new_credential
rotate_token-effect default_name fresh token now id st =
    elim (Option-cases (get allocation_id id st.allocations)) [
      | inl unknown ↦ inl (ground (arith, unknown))
      | inr (a, known) ↦ elim (Bool-cases (is_active a.status)) [
        | inr ended ↦ inl (ground (arith, known, ended))
        | inl active ↦ elim (Option-cases (find? (λ c. is_none c.revoked_at) (scoped_keys id st))) [
          | inr (c, found) ↦ inr (
              inl (
                c.id,
                replaced token now,
                (λ d. refl),
                (λ d h. h),
                ground (arith, known, active, found),
                ground (arith, known, active, found),
              ))
          | inl none_found ↦
              let c = new_credential fresh a.member_id default_name token now in
              inr (
                inr (
                  c,
                  link_of c a,
                  refl,
                  refl,
                  ground (arith, known, active, none_found),
                  ground (arith, known, active, none_found),
                ))
        ]
      ]
    ]
