-- ===== src/DeviceFlow/Changes.antt =====
-- What each call does to the table of device authorizations: an UPDATE of one row, a new row, or nothing.

use ai_api.Base.{
  ℕ, ◌≡◌, ◌⊎◌, inl, inr, refl, true, false, Option, none, some, List, [], ◌∷◌, ◌++◌, arith,
  Try-cases, get, modify, leb, Bool-cases, Option-cases,
}
use ai_api.Models.{Text, Instant}
use ai_api.Allocations.Keys.{create_member_credential}
use ai_api.DeviceFlow.{
  authorize, expire, get_pending, audited_by_member, approved_with, Approval, approve_row, approve,
  refuse, deny, label_or,
}
use ai_api.DeviceFlow.Tables.{
  is_pending, DeviceAuthorization, device_key, user_key, DeviceDb, pick_user_code,
  new_authorization, non_empty,
}

pub pending_row :
    (now : Instant) (code : ℕ) (db : DeviceDb) (row : DeviceAuthorization)
    → (get_pending now code db).0 ≡ some row
    → ((get_pending now code db).1 ≡ db)
      × (get user_key code db.authorizations ≡ some row)
      × (is_pending row.status ≡ true)
      × (leb row.expires_at now ≡ false)
unfolding get_pending
pending_row now code db row h = elim (Option-cases (get user_key code db.authorizations)) [
  | inl gone ↦ absurd (ground (arith, gone))
  | inr (r, found) ↦ ground (arith, found)
]

-- A call changes the table by one UPDATE of a pending row, or by nothing.
pub get_pending-rows :
    (now : Instant) (code : ℕ) (db : DeviceDb)
    → ((get_pending now code db).1.authorizations ≡ db.authorizations)
      ⊎ ((row : DeviceAuthorization) × (get user_key code db.authorizations ≡ some row)
          × (is_pending row.status ≡ true)
          × ((get_pending now code db).1.authorizations
              ≡ modify user_key code expire db.authorizations))
unfolding get_pending
get_pending-rows now code db = elim (Option-cases (get user_key code db.authorizations)) [
  | inl gone ↦ inl (ground (arith, gone))
  | inr (r, found) ↦ elim (Bool-cases (is_pending r.status)) [
    | inr settled ↦ inl (ground (arith, found, settled))
    | inl waits ↦ elim (Bool-cases (leb r.expires_at now)) [
      | inr live ↦ inl (ground (arith, found, waits, live))
      | inl over ↦ inr (r, found, waits, ground (arith, found, waits, over))
    ]
  ]
]

-- a change of the pending row that a user code finds
abbrev pub PendingChange : ℕ → DeviceDb → List DeviceAuthorization → Type 0
PendingChange code db rows =
    (row : DeviceAuthorization) × (f : DeviceAuthorization → DeviceAuthorization) × (get user_key
        code db.authorizations
      ≡ some row)
    × (is_pending row.status ≡ true)
    × ((x : DeviceAuthorization) → (f x).device_code ≡ x.device_code)
    × ((x : DeviceAuthorization) → (f x).user_code ≡ x.user_code)
    × (rows ≡ modify user_key code f db.authorizations)

pub deny-rows :
    (now : Instant) (code : ℕ) (db : DeviceDb)
    → ((deny now code db).1.authorizations ≡ (get_pending now code db).1.authorizations)
      ⊎ PendingChange code db (deny now code db).1.authorizations
unfolding deny audited_by_member
deny-rows now code db = elim (Option-cases (get_pending now code db).0) [
  | inl gone ↦ inl (rw (gone, deny) refl)
  | inr (row, e) ↦
      let (same, found, waits, live) = pending_row now code db row e in
      inr (
        row,
        refuse,
        found,
        waits,
        (λ x. refl),
        (λ x. refl),
        rw (e, same, deny, audited_by_member) refl,
      )
]

approve_row-rows :
    (encrypt : Text → Text) (by : Approval) (now : Instant) (code : ℕ) (row : DeviceAuthorization)
    (i : ℕ) (ids : List ℕ) (db : DeviceDb)
    → ((approve_row encrypt by now code row i ids db).1.authorizations ≡ db.authorizations)
      ⊎ ((f : DeviceAuthorization → DeviceAuthorization) × ((x : DeviceAuthorization)
            → (f x).device_code ≡ x.device_code)
          × ((x : DeviceAuthorization) → (f x).user_code ≡ x.user_code)
          × ((approve_row encrypt by now code row i ids db).1.authorizations
              ≡ modify user_key code f db.authorizations))
unfolding approve_row audited_by_member
approve_row-rows encrypt by now code row i ids db =
    elim (Try-cases
      (create_member_credential by.fresh by.token now by.member
        (label_or by.default_label row.device_label) (i ∷ ids) db.store).0) [
          | inr (x, e) ↦ inl (rw (e, approve_row) refl)
          | inl ((c, t), e) ↦ inr (
            approved_with (encrypt t.plaintext) now by.member i c.id,
            (λ x. refl),
            (λ x. refl),
            rw (e, approve_row, audited_by_member) refl,
          )
        ]

pub approve-rows :
    (encrypt : Text → Text) (by : Approval) (now : Instant) (code : ℕ) (ids : List ℕ)
    (db : DeviceDb)
    → ((approve encrypt by now code ids db).1.authorizations
        ≡ (get_pending now code db).1.authorizations)
      ⊎ PendingChange code db (approve encrypt by now code ids db).1.authorizations
unfolding approve
approve-rows encrypt by now code [] db = inl (ground arith)
approve-rows encrypt by now code (i ∷ ids) db = elim (Option-cases (get_pending now code db).0) [
  | inl gone ↦ inl (rw (gone, approve) refl)
  | inr (row, e) ↦
      let (same, found, waits, live) = pending_row now code db row e in
      elim (approve_row-rows encrypt by now code row i ids db) [
        | inl kept ↦ inl (rw (e, same, approve) kept)
        | inr (f, device, user, new) ↦
            inr (row, f, found, waits, device, user, rw (e, same, approve) new)
      ]
]

pub authorize-rows :
    (device : ℕ) (codes : ℕ → ℕ) (label : Option Text) (now : Instant) (db : DeviceDb)
    → ((authorize device codes label now db).1.authorizations ≡ db.authorizations)
      ⊎ ((row : DeviceAuthorization) × (get user_key row.user_code db.authorizations ≡ none)
          × ((authorize device codes label now db).1.authorizations
              ≡ db.authorizations ++ row ∷ []))
unfolding authorize new_authorization
authorize-rows device codes label now db =
    let code = pick_user_code 5 codes db.authorizations in
    elim (Option-cases (get user_key code db.authorizations)) [
      | inr (r, e) ↦ inl (rw (e, authorize) refl)
      | inl new ↦ elim (Option-cases (get device_key device db.authorizations)) [
        | inr (r, e) ↦ inl (rw (new, e, authorize) refl)
        | inl fresh ↦ inr (
          new_authorization device code (non_empty label) now,
          new,
          rw (new, fresh, authorize) refl,
        )
      ]
    ]
