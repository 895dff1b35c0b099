-- ===== src/Oauth/Consent.antt =====
-- What a consent is created for: the allowlist of redirect URIs fails closed.
use ai_api.Base.{
  is_empty, ℕ, ◌≡◌, ◌≢◌, ◌≤◌, inl, inr, ap, true, not, List, [], ◌∷◌, map, arith, ok, any, All,
  filter-All, length, text_eq, text_eq_sound, text_eq_refl, Bool-cases,
}
use ai_api.Models.{Text, Instant}
use ai_api.Oauth.{
  get_oauth_config, ConsentRequest, method_s256, new_consent, checked_consent, create_consent,
}
use ai_api.Oauth.Tables.{OauthAuthorization, OauthDb}
use ai_api.Oauth.Allowlist.{split_entries, parse_allowlist, redirect_allowed}
use ai_api.Base.Strings.{strip, starts_with}

-- Some entry of the allowlist, and not an empty one, begins the address.
abbrev pub OnAllowlist : Text → List Text → Type 0
OnAllowlist uri ps =
    (p : Text) × (p ≢ []) × (starts_with p uri ≡ true) × (any (λ q. text_eq q p) ps ≡ true)

any-found :
    (uri : Text) (ps : List Text)
    → All (λ p. not (is_empty p) ≡ true) ps
    → any (λ q. starts_with q uri) ps ≡ true
    → OnAllowlist uri ps
any-found uri [] all h = absurd (cc)
any-found uri (p ∷ ps) all h = elim (Bool-cases (starts_with p uri)) [
  | inl here ↦ (p, (λ e. cc (all.0, e)), here, ground (arith, text_eq_refl p))
  | inr other ↦
      let (q, some_text, begins, listed) = any-found uri ps all.1 (ground (arith, other, h)) in
      (q, some_text, begins, ground (arith, listed))
]

redirect_allowed-OnAllowlist :
    (uri raw : Text)
    → redirect_allowed uri (parse_allowlist raw) ≡ true
    → OnAllowlist uri (parse_allowlist raw)
unfolding redirect_allowed parse_allowlist
redirect_allowed-OnAllowlist uri raw h =
    any-found uri (parse_allowlist raw)
      (filter-All (λ p. not (is_empty p)) (map strip (split_entries raw)))
      (some_match (parse_allowlist raw) h)
  where
    some_match :
        (ps : List Text) → redirect_allowed uri ps ≡ true → any (λ q. starts_with q uri) ps ≡ true
    some_match [] e = absurd (cc)
    some_match (p ∷ ps) e = e

checked_consent-checks :
    (raw : Text) (id : ℕ) (now : Instant) (member : ℕ) (request : ConsentRequest) (db : OauthDb)
    (row : OauthAuthorization)
    → (checked_consent raw id now member request db).0 ≡ ok row
    → (redirect_allowed request.redirect_uri (parse_allowlist raw) ≡ true)
      × (text_eq request.code_challenge_method method_s256 ≡ true)
      × (43 ≤ length request.code_challenge)
      × (row ≡ new_consent id now member request)
unfolding checked_consent
checked_consent-checks raw id now member request db row h = ground arith

-- A consent is created only for a redirect address that begins with an entry of the allowlist in
-- force, which is not the empty text, and with a challenge of method S256 and of 43 characters or
-- more. It keeps the address and the challenge as they came, for the member who asked.
pub consent_redirect_allowed :
    (default : Text) (id : ℕ) (now : Instant) (member : ℕ) (request : ConsentRequest) (db : OauthDb)
    (row : OauthAuthorization)
    → (create_consent default id now member request db).0 ≡ ok row
    → OnAllowlist request.redirect_uri (parse_allowlist (get_oauth_config default db).0)
      × (request.code_challenge_method ≡ method_s256)
      × (43 ≤ length request.code_challenge)
      × (row.redirect_uri ≡ request.redirect_uri)
      × (row.code_challenge ≡ request.code_challenge)
      × (row.member_id ≡ member)
unfolding create_consent new_consent
consent_redirect_allowed default id now member request db row h =
    let (raw, db') = get_oauth_config default db in
    let (allowed, method, size, made) =
      checked_consent-checks raw id now member request db' row h in
    (
      redirect_allowed-OnAllowlist request.redirect_uri raw allowed,
      text_eq_sound request.code_challenge_method method_s256 method,
      size,
      ap (λ (r : OauthAuthorization). r.redirect_uri) made,
      ap (λ (r : OauthAuthorization). r.code_challenge) made,
      ap (λ (r : OauthAuthorization). r.member_id) made,
    )
