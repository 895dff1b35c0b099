-- ===== src/Oauth/Exchange.antt =====
-- The exchange of a code for a key: what it takes, and that a code is used once.
mod Changes
pub mod SingleUse
use mathlib.Core.Option
use ai_api.Base.{
  is_none, ℕ, zero, suc, ◌≡◌, ◌≢◌, ◌⊎◌, inl, inr, refl, sym, ap, ◌∙◌, Bool, true, false, not,
  Option, none, some, List, [], ◌∷◌, ◌++◌, map, arith, if◌then◌else◌, Try, Try-cases, ok, raise,
  get, modify, key-get, get-append_found, get-modify_self, keys-modify, All, any, leb, ◌==◌, ==_iff,
  ==_refl, text_eq, text_eq_sound, Bool-cases, Option-cases,
}
use ai_api.Base.UniqueKeys.{
  Distinct, Distinct-append_new, get-modify_away, get-modify_other, map-modify_other, same_row,
  All-missing, map-append_one,
}
use ai_api.Models.{Text, Instant, Credential, GeneratedToken, Member}
use ai_api.Allocations.{Store, AllocationError, member_key, new_credential}
use ai_api.Allocations.Keys.{create_member_credential}
use ai_api.Allocations.Keys.Scopes.{created}
use ai_api.Oauth.{
  get_oauth_config, ConsentRequest, new_consent, checked_consent, create_consent, expire,
  get_pending, grant, approve_pending, approve, refuse, deny, consume, Grant, Exchanged,
  ids_or_none, redeem, exchange_row, exchange,
}
use ai_api.Oauth.Tables.{
  OauthAuthStatus, awaits_consent, exchangeable, OauthAuthorization, consent_key, code_key, OauthDb,
  OauthError, invalid_grant, not_issued,
}

-- An exchange that succeeds has found an approved row and has passed every check of it.
pub Redeemed :
    (Text → Text)
    → ℕ
    → GeneratedToken
    → Instant
    → Grant
    → OauthDb
    → Exchanged
    → OauthDb
    → OauthAuthorization
    → Type 0
Redeemed s256 fresh token now request db (c, t, used) after row =
    (get code_key (suc request.code) db.consents ≡ some row)
    × (row.status ≡ OauthAuthStatus.approved)
    × (leb row.expires_at now ≡ false)
    × (request.redirect_uri ≡ row.redirect_uri)
    × (s256 request.code_verifier ≡ row.code_challenge)
    × ((m : Member) × (get member_key row.member_id db.store.members ≡ some m))
    × (c ≡ new_credential fresh row.member_id row.client_name token now)
    × (t ≡ token)
    × (after.store.credentials ≡ db.store.credentials ++ c ∷ [])
    × (after.consents ≡ modify consent_key row.id (consume now c.id) db.consents)

redeem-cases :
    (fresh : ℕ) (token : GeneratedToken) (now : Instant) (row : OauthAuthorization) (db : OauthDb)
    (c : Credential) (t : GeneratedToken) (used : OauthAuthorization)
    → (redeem fresh token now row db).0 ≡ ok (c, t, used)
    → (c ≡ new_credential fresh row.member_id row.client_name token now)
      × (t ≡ token)
      × ((redeem fresh token now row db).1.store.credentials ≡ db.store.credentials ++ c ∷ [])
      × ((redeem fresh token now row db).1.consents
          ≡ modify consent_key row.id (consume now c.id) db.consents)
unfolding redeem
redeem-cases fresh token now row db c t used h =
    elim (Try-cases
      (create_member_credential fresh token now row.member_id row.client_name
        (ids_or_none row.allocation_ids) db.store).0) [
          | inr (x, e) ↦ absurd (ground (arith, e))
          | inl ((k, u), e) ↦
              let (new, fresh_token, table) =
                created fresh token now row.member_id row.client_name
                  (ids_or_none row.allocation_ids) db.store k u e in
              let same : (k ≡ c) × (u ≡ t) = ground (arith, e) in
              (
                rw⁻¹ same.0 new,
                rw⁻¹ same.1 fresh_token,
                rw (e, redeem, ← same.0) table,
                rw (e, redeem, ← same.0) refl,
              )
        ]

exchange_row-checks :
    (s256 : Text → Text) (fresh : ℕ) (token : GeneratedToken) (now : Instant) (request : Grant)
    (row : OauthAuthorization) (db : OauthDb) (r : Exchanged)
    → (exchange_row s256 fresh token now request row db).0 ≡ ok r
    → (leb row.expires_at now ≡ false)
      × (text_eq request.redirect_uri row.redirect_uri ≡ true)
      × (text_eq (s256 request.code_verifier) row.code_challenge ≡ true)
      × (is_none (get member_key row.member_id db.store.members) ≡ false)
      × (exchange_row s256 fresh token now request row db ≡ redeem fresh token now row db)
unfolding exchange_row
exchange_row-checks s256 fresh token now request row db r h = ground arith

some_row {ℓ} : {A : Type ℓ} (o : Option A) → is_none o ≡ false → (a : A) × (o ≡ some a)
some_row none h = absurd (cc)
some_row (some a) h = (a, refl)

-- A code is exchanged only before it expires, by a request with the redirect URI of the consent and
-- with the verifier of its challenge; the new key is the one of the member who consented, with the
-- fresh token, and the row of the code is used up.
pub exchange_checks :
    (s256 : Text → Text) (fresh : ℕ) (token : GeneratedToken) (now : Instant) (request : Grant)
    (db : OauthDb) (r : Exchanged)
    → (exchange s256 fresh token now request db).0 ≡ ok r
    → (row : OauthAuthorization) × Redeemed s256 fresh token now request db r
        (exchange s256 fresh token now request db).1
        row
unfolding exchange Redeemed
exchange_checks s256 fresh token now request db (c, t, used) h =
    elim (Option-cases (get code_key (suc request.code) db.consents)) [
      | inl gone ↦ absurd (ground (arith, gone))
      | inr (row, found) ↦ elim (Bool-cases (exchangeable row.status)) [
        | inr other ↦ absurd (ground (arith, found, other))
        | inl open_row ↦
            let e : exchange s256 fresh token now request db
                ≡ exchange_row s256 fresh token now request row db =
              ground (arith, found, open_row) in
            let (live, uri, pkce, owner, same) =
              exchange_row-checks s256 fresh token now request row db (c, t, used)
                (ap (λ q. q.0) (sym e) ∙ h) in
            let all = e ∙ same in
            let (key, fresh_token, table, rows) =
              redeem-cases fresh token now row db c t used (ap (λ q. q.0) (sym all) ∙ h) in
            (
              row,
              (
                found,
                ground (arith, open_row),
                live,
                text_eq_sound _ _ uri,
                text_eq_sound _ _ pkce,
                some_row _ owner,
                key,
                fresh_token,
                ap (λ (q : Try OauthError Exchanged × OauthDb). q.1.store.credentials) all ∙ table,
                ap (λ (q : Try OauthError Exchanged × OauthDb). q.1.consents) all ∙ rows,
              ),
            )
      ]
    ]
