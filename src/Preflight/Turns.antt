-- ===== src/Preflight/Turns.antt =====
-- The turns of a provider's keys, and that an admissible call goes through.
use mathlib.Core.Path.{subst}
use mathlib.Core.List.{Mem}
use ai_api.Base.{
  ℕ, ◌≡◌, ◌⊎◌, inl, inr, refl, sym, Option, ok, raise, ap, ◌∙◌, true, false, none, some, List, [],
  ◌∷◌, arith, filter, any, modify, Bool-cases, Option-cases, All, All-weaken, filter-All,
}
use ai_api.Models.{Text, Instant, Allocation, Credential}
use ai_api.Models.Time.{DateTime}
use ai_api.Allocations.Keys.Lookup.{lookup_credential_by_token, resolve_scope_allocation}
use ai_api.Access.ModelAccess.{ProviderKey, AccessDb}
use ai_api.Preflight.{
  parse_provider, Settings, PreflightDb, PreflightSuccess, accepted, preflight_success, with_key,
  resolve_provider, preflight_key, run_preflight,
}
use ai_api.Preflight.ProviderKeys.{
  earlier, first_key, serves, get_next, provider_key_id, ResolvedCredential, resolved_of,
  decryption_failed, stamp_use,
}
use ai_api.Preflight.Safety.{
  Admissible, first_key-All, rejection-Admissible, after_lookup, All-mem, get_next-found,
}

earlier-asymmetric : (a b : ProviderKey) → earlier a b ≡ true → earlier b a ≡ false
unfolding earlier
earlier-asymmetric a b h = ground arith

earlier-irreflexive : (a : ProviderKey) → earlier a a ≡ false
unfolding earlier
earlier-irreflexive a = ground arith

not_earlier_trans :
    (x b k : ProviderKey) → earlier x b ≡ false → earlier b k ≡ false → earlier x k ≡ false
unfolding earlier
not_earlier_trans x b k h l = ground arith

-- no key of the list comes before this one
abbrev pub Least : List ProviderKey → ProviderKey → Type 0
Least ks k = All (λ j. earlier j k ≡ false) ks

first_key-Least : (ks : List ProviderKey) (k : ProviderKey) → first_key ks ≡ some k → Least ks k
unfolding first_key
first_key-Least [] k h = absurd (cc)
first_key-Least (j ∷ ks) k h = elim (Option-cases (first_key ks)) [
  | inl last ↦
      let same : j ≡ k = ground (arith, last, h) in
      let none_left : ks ≡ [] = first_key-none ks last in
      let all : Least (j ∷ ks) j = (earlier-irreflexive j, rw none_left tt) in
      subst (λ (q : ProviderKey). Least (j ∷ ks) q) same all
  | inr (best, e) ↦
      let rest = first_key-Least ks best e in
      elim (Bool-cases (earlier best j)) [
        | inl sooner ↦
            let same : best ≡ k = ground (arith, e, sooner, h) in
            let all : Least (j ∷ ks) best = (earlier-asymmetric best j sooner, rest) in
            subst (λ (q : ProviderKey). Least (j ∷ ks) q) same all
        | inr not_sooner ↦
            let same : j ≡ k = ground (arith, e, not_sooner, h) in
            let all : Least (j ∷ ks) j = (
              earlier-irreflexive j,
              All-weaken _ _ ks (λ x l. not_earlier_trans x best j l not_sooner) rest,
            ) in
            subst (λ (q : ProviderKey). Least (j ∷ ks) q) same all
      ]
]
  where
    first_key-none : (js : List ProviderKey) → first_key js ≡ none → js ≡ []
    first_key-none [] e = refl
    first_key-none (i ∷ js) e = elim (Option-cases (first_key js)) [
      | inl gone ↦ absurd (ground (arith, gone, e))
      | inr (b, found) ↦ absurd (ground (arith, found, e))
    ]

-- A provider's keys take turns: the key that is handed out is in force and none of the provider's keys
-- in force comes before it, by the longest time since its last use, where a key not yet used comes first;
-- and it is stamped as used now.
pub key_takes_turn :
    (decrypt_str : Text → Option Text) (now : Instant) (provider : Text) (db : AccessDb)
    (r : ResolvedCredential)
    → (get_next decrypt_str now provider db).0 ≡ ok (some r)
    → (k : ProviderKey) × (r.id ≡ k.id)
      × (decrypt_str k.enc_key ≡ some r.api_key)
      × (serves provider k ≡ true)
      × Least (filter (serves provider) db.provider_credentials) k
      × ((get_next decrypt_str now provider db).1.provider_credentials
          ≡ modify provider_key_id k.id
              (λ r. record r { last_used_at = some now })
              db.provider_credentials)
unfolding stamp_use
key_takes_turn decrypt_str now provider db r h =
    let (k, api_key, first, opened, whose, stamped) =
      get_next-found decrypt_str now provider db r h in
    (
      k,
      ap (λ (c : ResolvedCredential). c.id) whose,
      opened ∙ ap (λ (c : ResolvedCredential). some c.api_key) (sym whose),
      first_key-All (λ i. serves provider i ≡ true)
          (filter (serves provider) db.provider_credentials) k
          (filter-All (serves provider) db.provider_credentials) first,
      first_key-Least _ k first,
      ap (λ (t : AccessDb). t.provider_credentials) stamped,
    )

first_key-some :
    (provider : Text) (ks : List ProviderKey)
    → any (serves provider) ks ≡ true
    → (k : ProviderKey) × (first_key (filter (serves provider) ks) ≡ some k)
unfolding first_key
first_key-some provider [] h = absurd (cc)
first_key-some provider (j ∷ ks) h = elim (Bool-cases (serves provider j)) [
  | inr other ↦
      let (k, e) = first_key-some provider ks (ground (arith, other, h)) in (k, rw other e)
  | inl here ↦ rw here (elim (Option-cases (first_key (filter (serves provider) ks))) [
    | inl last ↦ (j, rw (last, first_key) refl)
    | inr (best, e) ↦ elim (Bool-cases (earlier best j)) [
      | inl sooner ↦ (best, rw (e, sooner, first_key) refl)
      | inr not_sooner ↦ (j, rw (e, not_sooner, first_key) refl)
    ]
  ])
]

resolve_provider-accepted :
    (decrypt_str : Text → Option Text) (settings : Settings) (now : Instant) (a : Allocation)
    (db : PreflightDb) (k : ProviderKey) (api_key : Text)
    → first_key (filter (serves (parse_provider a.resource_model)) db.access.provider_credentials)
      ≡ some k
    → decrypt_str k.enc_key ≡ some api_key
    → (resolve_provider decrypt_str settings now a db).0
      ≡ ok (accepted (preflight_success a (some (resolved_of k api_key))))
unfolding resolve_provider get_next with_key
resolve_provider-accepted decrypt_str settings now a db k api_key turn opened =
    rw (turn, opened, resolve_provider, get_next) refl

resolve_provider-raised :
    (decrypt_str : Text → Option Text) (settings : Settings) (now : Instant) (a : Allocation)
    (db : PreflightDb) (k : ProviderKey)
    → first_key (filter (serves (parse_provider a.resource_model)) db.access.provider_credentials)
      ≡ some k
    → decrypt_str k.enc_key ≡ none
    → (resolve_provider decrypt_str settings now a db).0 ≡ raise decryption_failed
unfolding resolve_provider get_next
resolve_provider-raised decrypt_str settings now a db k turn closed =
    rw (turn, closed, resolve_provider, get_next) refl

-- No call is turned away without cause: if the token belongs to a key, the model resolves in its scope to
-- an allocation that passes every check, and a key of the allocation's provider is in force, then either
-- the call goes through on that allocation, with the decrypted secret of the key whose turn it is; or that
-- key's secret does not decrypt, and the call raises the error, whatever other keys are in force.
pub admitted_call_passes :
    (decrypt_str : Text → Option Text) (fp : Text → ℕ) (settings : Settings) (now : Instant)
    (month : DateTime) (token model : Text) (db : PreflightDb) (c : Credential) (a : Allocation)
    → (lookup_credential_by_token fp now token db.access.store).0 ≡ some c
    → resolve_scope_allocation c model (after_lookup fp now token db).access.store ≡ some a
    → Admissible settings month a (after_lookup fp now token db)
    → any (serves (parse_provider a.resource_model)) db.access.provider_credentials ≡ true
    → let run = run_preflight decrypt_str fp settings now month token model db in
      let serving =
        filter (serves (parse_provider a.resource_model)) db.access.provider_credentials in
      (k : ProviderKey) × Mem k serving
      × Least serving k
      × (((api_key : Text) × (s : PreflightSuccess) × (decrypt_str k.enc_key ≡ some api_key)
            × (run.0 ≡ ok (accepted s))
            × (s.allocation ≡ a)
            × (s.resolved ≡ some (resolved_of k api_key)))
          ⊎ ((decrypt_str k.enc_key ≡ none) × (run.0 ≡ raise decryption_failed)))
unfolding run_preflight preflight_key
admitted_call_passes decrypt_str fp settings now month token model db c a known found admissible
      served =
    let db' = after_lookup fp now token db in
    let serving =
      filter (serves (parse_provider a.resource_model)) db.access.provider_credentials in
    let (k, turn) =
      first_key-some (parse_provider a.resource_model) db.access.provider_credentials served in
    let clear = (rejection-Admissible settings month a db').1 admissible in
    let keyed : run_preflight decrypt_str fp settings now month token model db
        ≡ preflight_key decrypt_str settings now month model c db' =
      ground (arith, known) in
    let resolved : preflight_key decrypt_str settings now month model c db'
        ≡ resolve_provider decrypt_str settings now a db' =
      ground (arith, found, clear) in
    let e = ap (λ q. q.0) (keyed ∙ resolved) in
    (
      k,
      first_key-All (λ j. Mem j serving) serving k (All-mem serving) turn,
      first_key-Least serving k turn,
      elim (Option-cases (decrypt_str k.enc_key)) [
        | inl closed ↦
            inr (closed, e ∙ resolve_provider-raised decrypt_str settings now a db' k turn closed)
        | inr (api_key, opened) ↦ inl (
          api_key,
          preflight_success a (some (resolved_of k api_key)),
          opened,
          e ∙ resolve_provider-accepted decrypt_str settings now a db' k api_key turn opened,
          refl,
          refl,
        )
      ],
    )
