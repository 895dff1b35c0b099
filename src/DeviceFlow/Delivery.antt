-- ===== src/DeviceFlow/Delivery.antt =====
-- What an approval mints, and that the device's next poll delivers it.
use mathlib.Core.Option
use ai_api.Base.{
  ℕ, ◌≡◌, ◌⊎◌, inl, inr, refl, ap, ◌∙◌, true, false, Option, none, some, List, [], ◌∷◌, ◌++◌, map,
  arith, if◌then◌else◌, Try, Try-cases, ok, raise, get, modify, key-get, All, leb, ◌==◌,
  Option-cases,
}
use ai_api.Models.{Text, Instant, Credential}
use ai_api.Allocations.{Store, value_error, new_credential}
use ai_api.Allocations.Keys.{create_member_credential}
use ai_api.Allocations.Keys.Lookup.{resolves, lookup_credential_by_token}
use ai_api.Allocations.Keys.Scopes.{created, unchanged_on_error}
use ai_api.Allocations.Keys.Tokens.{lookup_issued}
use ai_api.DeviceFlow.{
  get_pending, DeviceError, device_auth_error, not_created, audited_by_member, approved_with,
  Approval, approve_row, approve, success, deliver, poll, poll_pending, pinned_model, label_or,
}
use ai_api.DeviceFlow.Tables.{is_pending, DeviceAuthorization, device_key, user_key, DeviceDb}
use ai_api.Base.UniqueKeys.{Distinct, get-modify_other, same_row}
use ai_api.DeviceFlow.Changes.{pending_row}
use ai_api.DeviceFlow.PollChanges.{poll-deliver}

-- The call raised and minted nothing.
abbrev pub Failed : DeviceDb → Try DeviceError DeviceAuthorization × DeviceDb → Type 0
Failed db result =
    ((e : DeviceError) × (result.0 ≡ raise e)) × (result.1.store.credentials ≡ db.store.credentials)

-- The call approved a row that was pending and not over, for a key of the member with the fresh token.
abbrev pub Approved :
    (Text → Text)
    → Approval
    → Instant
    → ℕ
    → DeviceDb
    → Try DeviceError DeviceAuthorization × DeviceDb
    → Type 0
Approved encrypt by now code db result =
    (row : DeviceAuthorization) × (first : ℕ) × (c : Credential) × (get user_key code
        db.authorizations
      ≡ some row)
    × (is_pending row.status ≡ true)
    × (leb row.expires_at now ≡ false)
    × (c.id ≡ by.fresh)
    × (c.member_id ≡ by.member)
    × (c.token_fingerprint ≡ by.token.fingerprint)
    × (c.revoked_at ≡ none)
    × (let change = approved_with (encrypt by.token.plaintext) now by.member first c.id in
        (result.0 ≡ ok (change row))
        × (result.1.authorizations ≡ modify user_key code change db.authorizations))
    × (result.1.store.credentials ≡ db.store.credentials ++ c ∷ [])

approve_row-Approved :
    (encrypt : Text → Text) (by : Approval) (now : Instant) (code : ℕ) (row : DeviceAuthorization)
    (i : ℕ) (ids : List ℕ) (db : DeviceDb)
    → get user_key code db.authorizations ≡ some row
    → is_pending row.status ≡ true
    → leb row.expires_at now ≡ false
    → Failed db (approve_row encrypt by now code row i ids db)
      ⊎ Approved encrypt by now code db (approve_row encrypt by now code row i ids db)
unfolding approve_row audited_by_member new_credential
approve_row-Approved encrypt by now code row i ids db found waits live =
    let name = label_or by.default_label row.device_label in
    elim (Try-cases
      (create_member_credential by.fresh by.token now by.member name (i ∷ ids) db.store).0) [
        | inr (x, e) ↦ inl (
          (not_created x, rw (e, approve_row) refl),
          rw (e, approve_row)
              (ap (λ (s : Store). s.credentials)
                (unchanged_on_error by.fresh by.token now by.member name (i ∷ ids) db.store x e)),
        )
        | inl ((c, t), e) ↦
            let (new, fresh, table) =
              created by.fresh by.token now by.member name (i ∷ ids) db.store c t e in
            inr (
              row,
              i,
              c,
              found,
              waits,
              live,
              ap (λ (k : Credential). k.id) new,
              ap (λ (k : Credential). k.member_id) new,
              ap (λ (k : Credential). k.token_fingerprint) new,
              ap (λ (k : Credential). k.revoked_at) new,
              rw (e, fresh, approve_row, audited_by_member) (refl, refl),
              rw (e, approve_row, audited_by_member) table,
            )
      ]

store-get_pending :
    (now : Instant) (code : ℕ) (db : DeviceDb) → (get_pending now code db).1.store ≡ db.store
unfolding get_pending
store-get_pending now code db = ground arith

-- An approval either raises and mints no key, or the request was pending and not over and one key of
-- the member, with the fresh token, is added to the table of keys.
pub approve_mints :
    (encrypt : Text → Text) (by : Approval) (now : Instant) (code : ℕ) (ids : List ℕ)
    (db : DeviceDb)
    → Failed db (approve encrypt by now code ids db)
      ⊎ Approved encrypt by now code db (approve encrypt by now code ids db)
unfolding approve
approve_mints encrypt by now code [] db = elim (Option-cases (get_pending now code db).0) [
  | inl gone ↦ inl (
    (device_auth_error, rw (gone, approve) refl),
    rw (gone, approve) (ap (λ (s : Store). s.credentials) (store-get_pending now code db)),
  )
  | inr (row, e) ↦ inl (
    (not_created value_error, rw (e, approve) refl),
    rw (e, approve) (ap (λ (s : Store). s.credentials) (store-get_pending now code db)),
  )
]
approve_mints encrypt by now code (i ∷ ids) db = elim (Option-cases (get_pending now code db).0) [
  | inl gone ↦ inl (
    (device_auth_error, rw (gone, approve) refl),
    rw (gone, approve) (ap (λ (s : Store). s.credentials) (store-get_pending now code db)),
  )
  | inr (row, e) ↦
      let (same, found, waits, live) = pending_row now code db row e in
      rw (e, same, approve) (approve_row-Approved encrypt by now code row i ids db found waits live)
]

deliver_success :
    (decrypt : Text → Option Text) (code : ℕ) (row : DeviceAuthorization) (db : DeviceDb)
    (encrypted plaintext : Text)
    → row.encrypted_token ≡ some encrypted
    → decrypt encrypted ≡ some plaintext
    → (deliver decrypt code row db).0
      ≡ some (success plaintext row.credential_id (pinned_model row db.store))
unfolding deliver pinned_model
deliver_success decrypt code row db encrypted plaintext e plain = rw (e, plain, deliver) refl

store-poll :
    (decrypt : Text → Option Text) (now : Instant) (code : ℕ) (db : DeviceDb)
    → (poll decrypt now code db).1.store ≡ db.store
unfolding poll poll_pending deliver
store-poll decrypt now code db = ground arith

-- After an approval has succeeded, the next poll of the device, however late, delivers the plaintext of
-- the minted token and the id of its key; and at the gateway the token finds this key, of the
-- approving member. Device codes are unique in the table, encryption can be undone, and no key in
-- force has the fingerprint of the fresh token.
pub approved_key_delivered :
    (encrypt : Text → Text) (decrypt : Text → Option Text) (fp : Text → ℕ) (by : Approval)
    (now later much_later : Instant) (code : ℕ) (ids : List ℕ) (db : DeviceDb)
    (row : DeviceAuthorization)
    → Distinct (map device_key db.authorizations)
    → decrypt (encrypt by.token.plaintext) ≡ some by.token.plaintext
    → fp by.token.plaintext ≡ by.token.fingerprint
    → All (λ x. resolves by.token.fingerprint x ≡ false) db.store.credentials
    → (approve encrypt by now code ids db).0 ≡ ok row
    → let db' = (approve encrypt by now code ids db).1 in
      let polled = poll decrypt later row.device_code db' in
      ((model : Option Text) × (polled.0 ≡ some (success by.token.plaintext (some by.fresh) model)))
      × ((c : Credential) × ((lookup_credential_by_token fp much_later by.token.plaintext
              polled.1.store).0
            ≡ some c)
          × (c.id ≡ by.fresh)
          × (c.member_id ≡ by.member))
approved_key_delivered encrypt decrypt fp by now later much_later code ids db row unique undone own
      unused h =
    elim (approve_mints encrypt by now code ids db) [
      | inl ((x, failed), _) ↦ absurd (cc (failed, h))
      | inr (r, first, c, found, waits, live, id, member, digest, force, (made, table), keys) ↦
          let change = approved_with (encrypt by.token.plaintext) now by.member first c.id in
          let db' = (approve encrypt by now code ids db).1 in
          let same : row ≡ change r = cc (made, h) in
          let its : (r.user_code == code) ≡ true =
            ground (arith, key-get user_key code db.authorizations r found) in
          let here : get device_key r.device_code db'.authorizations ≡ some (change r) = rw table (
            get-modify_other device_key user_key r.device_code code change db.authorizations
              (λ x. refl)
            ∙ ap
                (Option.map
                  (λ (x : DeviceAuthorization). if x.user_code == code then change x else x))
                (same_row user_key device_key code db.authorizations r unique found)
            ∙ rw its refl) in
          let answer = poll-deliver decrypt later r.device_code (change r) db' here refl in
          let polled = (poll decrypt later r.device_code db').1 in
          let (d, looked, same_id, same_member) =
            lookup_issued fp much_later by.token.plaintext db.store.credentials c polled.store
              (ap (λ (s : Store). s.credentials) (store-poll decrypt later r.device_code db')
                ∙ keys)
              (rw own unused) (ground (arith, own, digest, force)) in
          rw same (
            (
              pinned_model (change r) db'.store,
              ap (λ q. q.0) answer
                  ∙ deliver_success decrypt r.device_code (change r) db'
                      (encrypt by.token.plaintext) by.token.plaintext refl undone
                  ∙ ap
                      (λ n.
                        some
                          (success by.token.plaintext (some n) (pinned_model (change r) db'.store)))
                      id,
            ),
            (d, looked, same_id ∙ id, same_member ∙ member),
          )
    ]
