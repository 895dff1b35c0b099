-- ===== src/Preflight/ProviderKeys.antt =====
-- -- `get_next` of src/ai_api/services/provider_credentials.py: the turns of a provider's keys, and the decryption of the
-- -- one that is handed out. `decrypt_str` of src/ai_api/services/crypto.py is an argument.
use ai_api.Base.{
  ℕ, Bool, true, false, Option, none, some, List, [], ◌∷◌, ◌++◌, filter, if◌then◌else◌, Try, ok,
  raise, is_none, modify, ltb, ◌==◌, ◌&&◌, ◌||◌, text_eq,
}
use ai_api.Models.{Text, Instant, ActorType}
use ai_api.Models.Events.{AuditEventType}
use ai_api.Access.ModelAccess.{ProviderKey, AccessDb}

abbrev pub provider_key_id : ProviderKey → ℕ
provider_key_id k = k.id

-- `ORDER BY last_used_at ASC NULLS FIRST, created_at ASC`
unfoldable pub earlier : ProviderKey → ProviderKey → Bool
earlier a b = elim a.last_used_at [
  | none ↦ elim b.last_used_at [ none ↦ ltb a.created_at b.created_at | some _ ↦ true ]
  | some s ↦ elim b.last_used_at [
    | none ↦ false
    | some t ↦ ltb s t || (s == t && ltb a.created_at b.created_at)
  ]
]

-- `LIMIT 1` of that order
unfoldable pub first_key : List ProviderKey → Option ProviderKey
first_key [] = none
first_key (k ∷ ks) =
    let rest = first_key ks in
    elim rest [ none ↦ some k | some best ↦ if earlier best k then some best else some k ]

-- the keys of a provider that are in force
abbrev pub serves : Text → ProviderKey → Bool
serves provider k = text_eq k.provider provider && k.is_active

-- what goes to the provider; the label, the base URL and the extra configuration are left out
pub record ResolvedCredential : Type 0 where
  pub id : ℕ
  pub provider : Text
  pub api_key : Text

abbrev pub resolved_of : ProviderKey → Text → ResolvedCredential
resolved_of k api_key = record { id = k.id; provider = k.provider; api_key = api_key }

-- what `decrypt_str` raises
pub data DecryptError : Type 0 where
  decryption_failed : DecryptError

-- the transaction of its own that stamps the key, with an audit row of its first use
unfoldable pub stamp_use : Instant → ProviderKey → AccessDb → AccessDb
stamp_use now k db = record db {
  provider_credentials =
      modify provider_key_id k.id (λ r. record r { last_used_at = some now })
        db.provider_credentials;
  store =
      if is_none k.last_used_at
      then record db.store {
        audit_log =
            db.store.audit_log
            ++ record {
              event_type = AuditEventType.provider_credential_used_first_time;
              actor_type = ActorType.system;
              target_id = some k.id;
            }
              ∷ [];
      }
      else db.store;
}

-- `get_next`: a key whose secret does not decrypt fails the call, and is not stamped.
unfoldable pub get_next :
    (Text → Option Text)
    → Instant
    → Text
    → AccessDb
    → Try DecryptError (Option ResolvedCredential) × AccessDb
get_next decrypt_str now provider db =
    elim (first_key (filter (serves provider) db.provider_credentials)) [
      | none ↦ (ok none, db)
      | some k ↦ elim (decrypt_str k.enc_key) [
        | none ↦ (raise decryption_failed, db)
        | some api_key ↦ (ok (some (resolved_of k api_key)), stamp_use now k db)
      ]
    ]
