-- ===== src/DeviceFlow.antt =====
-- src/ai_api/services/device_flow.py: a device asks for a key, a member approves in the browser, the
-- device's next poll takes the key away. Codes are opaque and are numbers. `encrypt` and `decrypt`
-- stand for src/ai_api/services/crypto.py, which calls Fernet; `decrypt` has no result where Fernet
-- raises InvalidToken.
pub mod PollChanges
pub mod Settled
pub mod Tables
mod Changes
pub mod Lifetime
pub mod Delivery
mod Tests
use ai_api.Base.{
  is_none, ℕ, zero, suc, ◌+◌, ◌*◌, Bool, true, false, Option, none, some, List, [], ◌∷◌, ◌++◌, map,
  filter, find?, length, if◌then◌else◌, Try, ok, raise, get, modify, leb, ltb, ◌==◌, ◌&&◌, text_eq,
  strip_provider,
}
use ai_api.Models.{
  Text, Instant, second, Allocation, Credential, CredentialAllocation, GeneratedToken, Member,
  ActorType,
}
use ai_api.Models.Events.{AuditEventType}
use ai_api.Allocations.{Store, AllocationError, value_error, allocation_id}
use ai_api.Allocations.Keys.{create_member_credential}
use ai_api.DeviceFlow.Tables.{
  DeviceAuthStatus, is_pending, DeviceAuthorization, device_key, user_key, DeviceDb, non_empty,
  pick_user_code, new_authorization, pending, approved,
}

-- `authorize`: the two codes, or nothing where a unique column refuses the row
pub authorize : ℕ → (ℕ → ℕ) → Option Text → Instant → DeviceDb → Option (ℕ × ℕ) × DeviceDb
authorize device_code codes label now db =
    let code = pick_user_code 5 codes db.authorizations in
    if is_none (get user_key code db.authorizations)
      && is_none (get device_key device_code db.authorizations)
    then (
      some (device_code, code),
      record db {
        authorizations =
            db.authorizations ++ new_authorization device_code code (non_empty label) now ∷ [];
      },
    )
    else (none, db)

abbrev pub expire : DeviceAuthorization → DeviceAuthorization
expire r = record r { status = DeviceAuthStatus.expired }

-- `get_pending`; a unique column finds one row, and the change is made to the row that it finds
pub get_pending : Instant → ℕ → DeviceDb → Option DeviceAuthorization × DeviceDb
get_pending now code db = elim (get user_key code db.authorizations) [
  | none ↦ (none, db)
  | some row ↦
      if is_pending row.status
      then (if leb row.expires_at now
          then (none, record db { authorizations = modify user_key code expire db.authorizations })
          else (some row, db))
      else (none, db)
]

-- `DeviceAuthError`, and what the allocation service raises
pub data DeviceError : Type 0 where
  device_auth_error : DeviceError
  not_created : AllocationError → DeviceError

pub audited_by_member : AuditEventType → DeviceDb → DeviceDb
audited_by_member event db =
    let log =
      db.store.audit_log
      ++ record { event_type = event; actor_type = ActorType.member; target_id = none } ∷ [] in
    record db { store = record db.store { audit_log = log } }

abbrev pub approved_with : Text → Instant → ℕ → ℕ → ℕ → DeviceAuthorization → DeviceAuthorization
approved_with encrypted now member first credential r = record r {
  member_id = some member;
  allocation_id = some first;
  credential_id = some credential;
  encrypted_token = some encrypted;
  status = DeviceAuthStatus.approved;
  approved_at = some now;
}

-- `row.device_label or "Codex"`
abbrev pub label_or : Text → Option Text → Text
label_or default none = default
label_or default (some []) = default
label_or default (some (x ∷ label)) = x ∷ label

-- what `approve` takes beside the codes: the member, a fresh id and token, and "Codex"
pub record Approval : Type 0 where
  pub member : ℕ
  pub fresh : ℕ
  pub token : GeneratedToken
  pub default_label : Text

-- `approve`, from the pending row on
pub approve_row :
    (Text → Text)
    → Approval
    → Instant
    → ℕ
    → DeviceAuthorization
    → ℕ
    → List ℕ
    → DeviceDb
    → Try DeviceError DeviceAuthorization × DeviceDb
approve_row encrypt by now code row i ids db =
    let (made, store) =
      create_member_credential by.fresh by.token now by.member
        (label_or by.default_label row.device_label) (i ∷ ids) db.store in
    elim made [
      | raise e ↦ (raise (not_created e), record db { store = store })
      | ok (credential, token) ↦
          let change = approved_with (encrypt token.plaintext) now by.member i credential.id in
          (
            ok (change row),
            audited_by_member AuditEventType.device_authorization_approved (record {
              authorizations = modify user_key code change db.authorizations;
              store = store;
            }),
          )
    ]

-- `approve`
pub approve :
    (Text → Text)
    → Approval
    → Instant
    → ℕ
    → List ℕ
    → DeviceDb
    → Try DeviceError DeviceAuthorization × DeviceDb
approve encrypt by now code ids db =
    let (found, db') = get_pending now code db in
    elim found [
      | none ↦ (raise device_auth_error, db')
      | some row ↦ elim ids [
        | [] ↦ (raise (not_created value_error), db')
        | i ∷ rest ↦ approve_row encrypt by now code row i rest db'
      ]
    ]

abbrev pub refuse : DeviceAuthorization → DeviceAuthorization
refuse r = record r { status = DeviceAuthStatus.denied }

-- `deny`
pub deny : Instant → ℕ → DeviceDb → Bool × DeviceDb
deny now code db =
    let (found, db') = get_pending now code db in
    elim found [
      | none ↦ (false, db')
      | some row ↦ (
        true,
        audited_by_member AuditEventType.device_authorization_denied
            (record db' { authorizations = modify user_key code refuse db'.authorizations }),
      )
    ]

pub data PollResult : Type 0 where
  authorization_pending slow_down expired_token access_denied not_found : PollResult
  success : (token : Text) (credential_id : Option ℕ) (model : Option Text) → PollResult

-- `last_polled_at` and the answer to a row that still waits
pub poll_pending : Instant → ℕ → DeviceAuthorization → DeviceDb → PollResult × DeviceDb
poll_pending now code row db =
    if leb row.expires_at now
    then (
      expired_token,
      record db { authorizations = modify device_key code expire db.authorizations },
    )
    else (
      elim row.last_polled_at [
        | none ↦ authorization_pending
        | some last ↦
            if ltb now (last + row.poll_interval * second) then slow_down else authorization_pending
      ],
      record db {
        authorizations =
            modify device_key code (λ r. record r { last_polled_at = some now }) db.authorizations;
      },
    )

-- the model to pin: the bare name where it is unambiguous in the key's scope
pub pinned_model : DeviceAuthorization → Store → Option Text
pinned_model row st = elim row.allocation_id [
  | none ↦ none
  | some id ↦ elim (get allocation_id id st.allocations) [
    | none ↦ none
    | some a ↦
        let bare = strip_provider a.resource_model in
        let scope =
          filter (λ l. elim row.credential_id [ none ↦ false | some c ↦ l.credential_id == c ])
            st.links in
        let same_bare = filter (λ l. text_eq (strip_provider l.resource_model) bare) scope in
        some (if length same_bare == 1 then bare else a.resource_model)
  ]
]

abbrev pub clear_token : DeviceAuthorization → DeviceAuthorization
clear_token r = record r { encrypted_token = none }

-- the answer to an approved row; nothing where decryption raises
pub deliver :
    (Text → Option Text) → ℕ → DeviceAuthorization → DeviceDb → Option PollResult × DeviceDb
deliver decrypt code row db = elim row.encrypted_token [
  | none ↦ (some expired_token, db)
  | some encrypted ↦ elim (decrypt encrypted) [
    | none ↦ (none, db)
    | some plaintext ↦ (
      some (success plaintext row.credential_id (pinned_model row db.store)),
      record db { authorizations = modify device_key code clear_token db.authorizations },
    )
  ]
]

-- `poll`
pub poll : (Text → Option Text) → Instant → ℕ → DeviceDb → Option PollResult × DeviceDb
poll decrypt now code db = elim (get device_key code db.authorizations) [
  | none ↦ (some not_found, db)
  | some row ↦ elim row.status [
    | DeviceAuthStatus.pending ↦
        let (answer, db') = poll_pending now code row db in (some answer, db')
    | DeviceAuthStatus.denied ↦ (some access_denied, db)
    | DeviceAuthStatus.expired ↦ (some expired_token, db)
    | DeviceAuthStatus.approved ↦ deliver decrypt code row db
  ]
]
