-- ===== src/Oauth/Exchange/Changes.antt =====
-- What each call does to the table of consents: an UPDATE of a row that is not used up, a new row, or
-- nothing.

use ai_api.Base.{
  ℕ, suc, ◌≡◌, ◌⊎◌, inl, inr, refl, sym, ap, ◌∙◌, Bool, true, false, none, some, List, [], ◌∷◌,
  ◌++◌, map, arith, Try-cases, get, modify, Bool-cases, Option-cases,
}
use ai_api.Base.UniqueKeys.{Distinct, same_row}
use ai_api.Models.{Text, Instant, GeneratedToken}
use ai_api.Allocations.Keys.{create_member_credential}
use ai_api.Oauth.{
  get_oauth_config, ConsentRequest, new_consent, checked_consent, create_consent, expire,
  get_pending, grant, approve_pending, approve, refuse, deny, consume, Grant, ids_or_none, redeem,
  exchange_row, exchange,
}
use ai_api.Oauth.Tables.{
  OauthAuthStatus, exchangeable, OauthAuthorization, consent_key, code_key, OauthDb,
}

abbrev pub used_up : OauthAuthStatus → Bool
used_up OauthAuthStatus.consumed = true
used_up _ = false

-- What a call does to the table, for a key of the column `code`: nothing, one UPDATE of a row that is
-- not used up, or a new row.
abbrev pub Change : ℕ → List OauthAuthorization → List OauthAuthorization → Type 0
Change k rows rows' =
    (rows' ≡ rows)
    ⊎ (((id : ℕ) × (p : OauthAuthorization) × (f : OauthAuthorization → OauthAuthorization) × (get
              consent_key id rows
            ≡ some p)
          × (used_up p.status ≡ false)
          × ((x : OauthAuthorization) → (f x).id ≡ x.id)
          × ((x : OauthAuthorization) → code_key (f x) ≡ k → code_key x ≡ k)
          × (rows' ≡ modify consent_key id f rows))
        ⊎ ((r : OauthAuthorization) × (get consent_key r.id rows ≡ none)
            × (rows' ≡ rows ++ r ∷ [])))

consents-get_oauth_config :
    (default : Text) (db : OauthDb) → (get_oauth_config default db).1.consents ≡ db.consents
unfolding get_oauth_config
consents-get_oauth_config default db = ground arith

id-new_consent :
    (id : ℕ) (now : Instant) (member : ℕ) (request : ConsentRequest)
    → (new_consent id now member request).id ≡ id
unfolding new_consent
id-new_consent id now member request = refl

checked_consent-rows :
    (raw : Text) (id : ℕ) (now : Instant) (member : ℕ) (request : ConsentRequest) (db : OauthDb)
    → ((checked_consent raw id now member request db).1.consents ≡ db.consents)
      ⊎ ((get consent_key id db.consents ≡ none)
          × ((checked_consent raw id now member request db).1.consents
              ≡ db.consents ++ new_consent id now member request ∷ []))
unfolding checked_consent
checked_consent-rows raw id now member request db = ground arith

pub create_consent-Change :
    (k : ℕ) (default : Text) (id : ℕ) (now : Instant) (member : ℕ) (request : ConsentRequest)
    (db : OauthDb)
    → Change k db.consents (create_consent default id now member request db).1.consents
unfolding create_consent
create_consent-Change k default id now member request db =
    let (raw, db') = get_oauth_config default db in
    let same = consents-get_oauth_config default db in
    elim (checked_consent-rows raw id now member request db') [
      | inl kept ↦ inl (kept ∙ same)
      | inr (new, added) ↦ inr (
          inr (
            new_consent id now member request,
            ap (λ i. get consent_key i db.consents) (id-new_consent id now member request)
                ∙ ap (get consent_key id) (sym same)
                ∙ new,
            added ∙ ap (λ rows. rows ++ new_consent id now member request ∷ []) same,
          ))
    ]

pending_row :
    (now : Instant) (id member : ℕ) (db : OauthDb) (row : OauthAuthorization)
    → (get_pending now id member db).0 ≡ some row
    → ((get_pending now id member db).1 ≡ db)
      × (get consent_key id db.consents ≡ some row)
      × (used_up row.status ≡ false)
unfolding get_pending
pending_row now id member db row h = elim (Option-cases (get consent_key id db.consents)) [
  | inl gone ↦ absurd (ground (arith, gone))
  | inr (r, found) ↦ ground (arith, found)
]

pub get_pending-Change :
    (k : ℕ) (now : Instant) (id member : ℕ) (db : OauthDb)
    → Change k db.consents (get_pending now id member db).1.consents
unfolding get_pending
get_pending-Change k now id member db = elim (Option-cases (get consent_key id db.consents)) [
  | inl gone ↦ inl (ground (arith, gone))
  | inr (r, found) ↦
      let two : ((get_pending now id member db).1.consents ≡ db.consents)
          ⊎ ((used_up r.status ≡ false)
              × ((get_pending now id member db).1.consents
                  ≡ modify consent_key id expire db.consents)) =
        ground (arith, found) in
      elim two [
        | inl same ↦ inl same
        | inr (other, new) ↦ inr (inl (id, r, expire, found, other, (λ x. refl), (λ x e. e), new))
      ]
]

pub deny-Change :
    (k : ℕ) (now : Instant) (id member : ℕ) (db : OauthDb)
    → Change k db.consents (deny now id member db).1.consents
unfolding deny
deny-Change k now id member db = elim (Option-cases (get_pending now id member db).0) [
  | inl gone ↦ rw (gone, deny) (get_pending-Change k now id member db)
  | inr (row, e) ↦
      let (same, found, other) = pending_row now id member db row e in
      inr (inl (id, row, refuse, found, other, (λ x. refl), (λ x q. q), rw (e, same, deny) refl))
]

approve_pending-rows :
    (code : ℕ) (now : Instant) (id member : ℕ) (ids : List ℕ) (row : OauthAuthorization)
    (db : OauthDb)
    → ((approve_pending code now id member ids row db).1.consents ≡ db.consents)
      ⊎ ((get code_key (suc code) db.consents ≡ none)
          × ((approve_pending code now id member ids row db).1.consents
              ≡ modify consent_key id (grant code now ids) db.consents))
unfolding approve_pending
approve_pending-rows code now id member ids row db = ground arith

-- a fresh code is not the one of a row that stands
pub approve-Change :
    (k : ℕ) (a : OauthAuthorization) (code : ℕ) (now : Instant) (id member : ℕ) (ids : List ℕ)
    (db : OauthDb)
    → get code_key k db.consents ≡ some a
    → Change k db.consents (approve code now id member ids db).1.consents
unfolding approve
approve-Change k a code now id member ids db here =
    elim (Option-cases (get_pending now id member db).0) [
      | inl gone ↦ rw (gone, approve) (get_pending-Change k now id member db)
      | inr (row, e) ↦
          let (same, found, other) = pending_row now id member db row e in
          elim (approve_pending-rows code now id member ids row db) [
            | inl kept ↦ inl (rw (e, same, approve) kept)
            | inr (fresh, new) ↦ inr (
                inl (
                  id,
                  row,
                  grant code now ids,
                  found,
                  other,
                  (λ x. refl),
                  (λ x q. absurd (cc (here, fresh))),
                  rw (e, same, approve) new,
                ))
          ]
    ]

redeem-rows :
    (fresh : ℕ) (token : GeneratedToken) (now : Instant) (row : OauthAuthorization) (db : OauthDb)
    → ((redeem fresh token now row db).1.consents ≡ db.consents)
      ⊎ ((c : ℕ) × ((redeem fresh token now row db).1.consents
            ≡ modify consent_key row.id (consume now c) db.consents))
unfolding redeem
redeem-rows fresh token now row db =
    elim (Try-cases
      (create_member_credential fresh token now row.member_id row.client_name
        (ids_or_none row.allocation_ids) db.store).0) [
          | inr (x, e) ↦ inl (rw (e, redeem) refl)
          | inl ((c, t), e) ↦ inr (c.id, rw (e, redeem) refl)
        ]

exchange_row-rows :
    (s256 : Text → Text) (fresh : ℕ) (token : GeneratedToken) (now : Instant) (request : Grant)
    (row : OauthAuthorization) (db : OauthDb)
    → ((exchange_row s256 fresh token now request row db).1.consents ≡ db.consents)
      ⊎ (((exchange_row s256 fresh token now request row db).1.consents
            ≡ modify consent_key row.id expire db.consents)
          ⊎ ((exchange_row s256 fresh token now request row db).1.consents
              ≡ (redeem fresh token now row db).1.consents))
unfolding exchange_row
exchange_row-rows s256 fresh token now request row db = ground arith

pub exchange-Change :
    (k : ℕ) (a : OauthAuthorization) (s256 : Text → Text) (fresh : ℕ) (token : GeneratedToken)
    (now : Instant) (request : Grant) (db : OauthDb)
    → Distinct (map consent_key db.consents)
    → Change k db.consents (exchange s256 fresh token now request db).1.consents
unfolding exchange
exchange-Change k a s256 fresh token now request db distinct =
    elim (Option-cases (get code_key (suc request.code) db.consents)) [
      | inl gone ↦ inl (ground (arith, gone))
      | inr (row, found) ↦ elim (Bool-cases (exchangeable row.status)) [
        | inr other ↦ inl (ground (arith, found, other))
        | inl granted ↦
            let e : exchange s256 fresh token now request db
                ≡ exchange_row s256 fresh token now request row db =
              ground (arith, found, granted) in
            let here =
              same_row code_key consent_key (suc request.code) db.consents row distinct found in
            let other : used_up row.status ≡ false = ground (arith, granted) in
            rw e (elim (exchange_row-rows s256 fresh token now request row db) [
              | inl same ↦ inl same
              | inr (inl new) ↦
                  inr (inl (row.id, row, expire, here, other, (λ x. refl), (λ x q. q), new))
              | inr (inr spent) ↦ elim (redeem-rows fresh token now row db) [
                | inl same ↦ inl (spent ∙ same)
                | inr (c, new) ↦ inr (
                    inl (
                      row.id,
                      row,
                      consume now c,
                      here,
                      other,
                      (λ x. refl),
                      (λ x q. q),
                      spent ∙ new,
                    ))
              ]
            ])
      ]
    ]
