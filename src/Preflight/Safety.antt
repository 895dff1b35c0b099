-- ===== src/Preflight/Safety.antt =====
-- What a call that passes the preflight has shown, and when it passes.
use mathlib.Core.List.{Mem, mem-cons_self, mem-cons_of_mem}
use ai_api.Base.{
  ℕ, ◌≡◌, ◌⊎◌, ◌↔◌, inl, inr, sym, ap, ◌∙◌, true, false, none, some, List, [], ◌∷◌, arith, filter,
  refl, Option, Try-cases, ok, All-weaken, All-filter, ◌&&◌, text_eq, text_eq_sound, text_eq_refl,
  Bool-cases, Option-cases, All, filter-All,
}
use ai_api.Models.{Text, Instant, Allocation, AllocationStatus, Credential}
use ai_api.Models.Time.{DateTime}
use ai_api.Allocations.Keys.{credential_in_allocation_scope}
use ai_api.Allocations.Keys.Lookup.{lookup_credential_by_token, resolve_scope_allocation}
use ai_api.Allocations.Keys.Resolution.{resolution_in_scope}
use ai_api.Access.ModelAccess.{ProviderKey, AccessDb}
use ai_api.Preflight.{
  default_provider, parse_provider, check_allowed, current_month_usage, current_month_cost,
  is_over_quota, is_over_cost_quota, Settings, PreflightDb, PreflightSuccess, accepted, forbidden,
  rejection, preflight_success, with_key, resolve_provider, preflight_key, run_preflight,
}
use ai_api.Preflight.ProviderKeys.{
  earlier, first_key, serves, get_next, ResolvedCredential, resolved_of, stamp_use,
}

-- what every check asks of the allocation
abbrev pub Admissible : Settings → DateTime → Allocation → PreflightDb → Type 0
Admissible settings month a db =
    (check_allowed (parse_provider a.resource_model) settings.allowed_providers ≡ true)
    × (a.status ≡ AllocationStatus.active)
    × (is_over_quota a (current_month_usage month a.id db.call_records) ≡ false)
    × (is_over_cost_quota a (current_month_cost month a.id db.call_records) ≡ false)
    × (forbidden a db.access ≡ false)

pub rejection-Admissible :
    (settings : Settings) (month : DateTime) (a : Allocation) (db : PreflightDb)
    → (rejection settings month a db ≡ none) ↔ Admissible settings month a db
unfolding rejection
rejection-Admissible settings month a db = (
  (λ h. ground (arith, h, text_eq_refl a.resource_model)),
  (λ h. ground (arith, h, text_eq_refl a.resource_model)),
)

pub first_key-All {ℓ} :
    (P : ProviderKey → Type ℓ) (ks : List ProviderKey) (k : ProviderKey)
    → All P ks
    → first_key ks ≡ some k
    → P k
unfolding first_key
first_key-All P [] k all h = absurd (cc)
first_key-All P (j ∷ ks) k all h = elim (Option-cases (first_key ks)) [
  | inl last ↦ let same : j ≡ k = ground (arith, last, h) in rw same at all.0
  | inr (best, e) ↦ elim (Bool-cases (earlier best j)) [
    | inl sooner ↦
        let same : best ≡ k = ground (arith, e, sooner, h) in
        rw same at (first_key-All P ks best all.1 e)
    | inr not_sooner ↦ let same : j ≡ k = ground (arith, e, not_sooner, h) in rw same at all.0
  ]
]

pub All-mem : (ks : List ProviderKey) → All (λ k. Mem k ks) ks
All-mem [] = tt
All-mem (j ∷ ks) = (
  mem-cons_self,
  All-weaken (λ k. Mem k ks) (λ k. Mem k (j ∷ ks)) ks (λ k m. mem-cons_of_mem j m) (All-mem ks),
)

-- The key of the provider that a success carries, decrypted, or the settings' key for azure.
abbrev pub Served : (Text → Option Text) → Settings → PreflightSuccess → AccessDb → Type 0
Served decrypt_str settings s db =
    ((k : ProviderKey) × (api_key : Text) × Mem k db.provider_credentials
      × (serves s.provider k ≡ true)
      × (decrypt_str k.enc_key ≡ some api_key)
      × (s.resolved ≡ some (resolved_of k api_key)))
    ⊎ ((s.resolved ≡ none) × (s.provider ≡ default_provider) × (settings.azure_fallback ≡ true))

module _ (decrypt_str : Text → Option Text) where
  -- what a key that is handed out says of the table
  pub get_next-found :
      (now : Instant) (provider : Text) (db : AccessDb) (r : ResolvedCredential)
      → (get_next decrypt_str now provider db).0 ≡ ok (some r)
      → (k : ProviderKey) × (api_key : Text) × (first_key
            (filter (serves provider) db.provider_credentials)
          ≡ some k)
        × (decrypt_str k.enc_key ≡ some api_key)
        × (r ≡ resolved_of k api_key)
        × ((get_next decrypt_str now provider db).1 ≡ stamp_use now k db)
  unfolding get_next
  get_next-found now provider db r h =
      elim (Option-cases (first_key (filter (serves provider) db.provider_credentials))) [
        | inl gone ↦ absurd (ground (arith, gone, h))
        | inr (k, e) ↦ elim (Option-cases (decrypt_str k.enc_key)) [
          | inl closed ↦ absurd (ground (arith, e, closed, h))
          | inr (api_key, opened) ↦
              (k, api_key, e, opened, ground (arith, e, opened, h), rw (e, opened, get_next) refl)
        ]
      ]

  resolve_provider-Served :
      (settings : Settings) (now : Instant) (a : Allocation) (db : PreflightDb)
      (s : PreflightSuccess)
      → (resolve_provider decrypt_str settings now a db).0 ≡ ok (accepted s)
      → (s.allocation ≡ a)
        × (s.provider ≡ parse_provider a.resource_model)
        × Served decrypt_str settings s db.access
  unfolding resolve_provider with_key
  resolve_provider-Served settings now a db s h =
      let provider = parse_provider a.resource_model in
      elim (Try-cases (get_next decrypt_str now provider db.access).0) [
        | inr (x, failed) ↦ absurd (ground (arith, failed, h))
        | inl (none, gone) ↦
            elim (Bool-cases (text_eq provider default_provider && settings.azure_fallback)) [
              | inr closed ↦ absurd (ground (arith, gone, closed, h))
              | inl fallback ↦
                  let same : preflight_success a none ≡ s = ground (arith, gone, fallback, h) in
                  let (azure, set) : (text_eq provider default_provider ≡ true)
                      × (settings.azure_fallback ≡ true) =
                    ground (arith, fallback) in
                  rw (← same)
                    (refl, refl, inr (refl, text_eq_sound provider default_provider azure, set))
            ]
        | inl (some r, e) ↦
            let (k, api_key, first, opened, whose, _) = get_next-found now provider db.access r e in
            let rows = db.access.provider_credentials in
            let same : preflight_success a (some r) ≡ s = ground (arith, e, h) in
            rw (← same) (
              refl,
              refl,
              inl (
                k,
                api_key,
                first_key-All (λ j. Mem j rows) (filter (serves provider) rows) k
                    (All-filter (λ j. Mem j rows) (serves provider) rows (All-mem rows)) first,
                first_key-All (λ j. serves provider j ≡ true) (filter (serves provider) rows) k
                    (filter-All (serves provider) rows) first,
                opened,
                ap some whose,
              ),
            )
      ]

-- the database after the lookup of a token, which may stamp the key
abbrev pub after_lookup : (Text → ℕ) → Instant → Text → PreflightDb → PreflightDb
after_lookup fp now token db = record db {
  access = record db.access { store = (lookup_credential_by_token fp now token db.access.store).1 };
}

preflight_key-accepted :
    (decrypt_str : Text → Option Text) (settings : Settings) (now : Instant) (month : DateTime)
    (model : Text) (c : Credential) (db : PreflightDb) (s : PreflightSuccess)
    → (preflight_key decrypt_str settings now month model c db).0 ≡ ok (accepted s)
    → (resolve_scope_allocation c model db.access.store ≡ some s.allocation)
      × Admissible settings month s.allocation db
      × (s.provider ≡ parse_provider s.allocation.resource_model)
      × Served decrypt_str settings s db.access
unfolding preflight_key
preflight_key-accepted decrypt_str settings now month model c db s h =
    elim (Option-cases (resolve_scope_allocation c model db.access.store)) [
      | inl gone ↦ absurd (ground (arith, gone, h))
      | inr (a, found) ↦ elim (Option-cases (rejection settings month a db)) [
        | inr (code, failed) ↦ absurd (ground (arith, found, failed, h))
        | inl clear ↦
            let e : preflight_key decrypt_str settings now month model c db
                ≡ resolve_provider decrypt_str settings now a db =
              ground (arith, found, clear) in
            let (whose, by, served) =
              resolve_provider-Served decrypt_str settings now a db s (ap (λ q. q.0) (sym e) ∙ h) in
            (
              found ∙ ap some (sym whose),
              rw whose ((rejection-Admissible settings month a db).0 clear),
              by ∙ ap (λ (b : Allocation). parse_provider b.resource_model) (sym whose),
              served,
            )
      ]
    ]

-- A call goes through only if its token belongs to a key, the allocation is in the scope of that key and
-- is active, its provider is on the allowlist, neither monthly quota is reached, the access policy does
-- not forbid the model, and a key of that provider is in force, whose secret decrypts to what the call
-- carries, or the settings' key for azure is set.
pub preflight_safe :
    (decrypt_str : Text → Option Text) (fp : Text → ℕ) (settings : Settings) (now : Instant)
    (month : DateTime) (token model : Text) (db : PreflightDb) (s : PreflightSuccess)
    → (run_preflight decrypt_str fp settings now month token model db).0 ≡ ok (accepted s)
    → let db' = after_lookup fp now token db in
      ((c : Credential) × ((lookup_credential_by_token fp now token db.access.store).0 ≡ some c)
        × (credential_in_allocation_scope c.id s.allocation.id db'.access.store ≡ true))
      × Admissible settings month s.allocation db'
      × (s.provider ≡ parse_provider s.allocation.resource_model)
      × Served decrypt_str settings s db'.access
unfolding run_preflight
preflight_safe decrypt_str fp settings now month token model db s h =
    let db' = after_lookup fp now token db in
    elim (Option-cases (lookup_credential_by_token fp now token db.access.store).0) [
      | inl gone ↦ absurd (ground (arith, gone, h))
      | inr (c, known) ↦
          let e : run_preflight decrypt_str fp settings now month token model db
              ≡ preflight_key decrypt_str settings now month model c db' =
            ground (arith, known) in
          let (found, admissible, by, served) =
            preflight_key-accepted decrypt_str settings now month model c db' s
              (ap (λ q. q.0) (sym e) ∙ h) in
          (
            (c, known, resolution_in_scope c model db'.access.store s.allocation found),
            admissible,
            by,
            served,
          )
    ]
