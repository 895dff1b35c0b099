-- ===== src/DeviceFlow/PollChanges.antt =====
-- What a poll does to the table of device authorizations.
use ai_api.Base.{
  ℕ, ◌≡◌, ◌⊎◌, inl, inr, refl, true, Option, some, List, arith, get, modify, leb, Bool-cases,
  Option-cases,
}
use ai_api.Models.{Text, Instant}
use ai_api.DeviceFlow.{expire, poll_pending, clear_token, deliver, poll}
use ai_api.DeviceFlow.Tables.{
  DeviceAuthStatus, is_pending, DeviceAuthorization, device_key, DeviceDb,
}

status-cases :
    (s : DeviceAuthStatus)
    → (s ≡ DeviceAuthStatus.pending)
      ⊎ ((s ≡ DeviceAuthStatus.approved)
          ⊎ ((s ≡ DeviceAuthStatus.denied) ⊎ (s ≡ DeviceAuthStatus.expired)))
status-cases DeviceAuthStatus.pending = inl refl
status-cases DeviceAuthStatus.approved = inr (inl refl)
status-cases DeviceAuthStatus.denied = inr (inr (inl refl))
status-cases DeviceAuthStatus.expired = inr (inr (inr refl))

-- what a poll does to the row that it finds
abbrev Polled : ℕ → DeviceDb → List DeviceAuthorization → DeviceAuthorization → Type 0
Polled code db rows row =
    (rows ≡ db.authorizations)
    ⊎ ((f : DeviceAuthorization → DeviceAuthorization) × ((x : DeviceAuthorization)
          → (f x).device_code ≡ x.device_code)
        × ((x : DeviceAuthorization) → (f x).user_code ≡ x.user_code)
        × ((is_pending row.status ≡ true)
            ⊎ ((row.status ≡ DeviceAuthStatus.approved) × (f row ≡ clear_token row)))
        × (rows ≡ modify device_key code f db.authorizations))

poll_pending-Polled :
    (now : Instant) (code : ℕ) (row : DeviceAuthorization) (db : DeviceDb)
    → row.status ≡ DeviceAuthStatus.pending
    → Polled code db (poll_pending now code row db).1.authorizations row
unfolding poll_pending
poll_pending-Polled now code row db waits = elim (Bool-cases (leb row.expires_at now)) [
  | inl over ↦
      inr (
        expire,
        (λ x. refl),
        (λ x. refl),
        inl (ground (arith, waits)),
        rw (over, poll_pending) refl,
      )
  | inr live ↦ inr (
    (λ r. record r { last_polled_at = some now }),
    (λ x. refl),
    (λ x. refl),
    inl (ground (arith, waits)),
    rw (live, poll_pending) refl,
  )
]

deliver-Polled :
    (decrypt : Text → Option Text) (code : ℕ) (row : DeviceAuthorization) (db : DeviceDb)
    → row.status ≡ DeviceAuthStatus.approved
    → Polled code db (deliver decrypt code row db).1.authorizations row
unfolding deliver
deliver-Polled decrypt code row db done = elim (Option-cases row.encrypted_token) [
  | inl taken ↦ inl (rw (taken, deliver) refl)
  | inr (t, here) ↦ elim (Option-cases (decrypt t)) [
    | inl broken ↦ inl (rw (here, broken, deliver) refl)
    | inr (p, plain) ↦
        inr
          (clear_token, (λ x. refl), (λ x. refl), inr (done, refl), rw (here, plain, deliver) refl)
  ]
]

poll-poll_pending :
    (decrypt : Text → Option Text) (now : Instant) (code : ℕ) (row : DeviceAuthorization)
    (db : DeviceDb)
    → get device_key code db.authorizations ≡ some row
    → row.status ≡ DeviceAuthStatus.pending
    → poll decrypt now code db
      ≡ (some (poll_pending now code row db).0, (poll_pending now code row db).1)
unfolding poll
poll-poll_pending decrypt now code row db found waits = ground (arith, found, waits)

pub poll-deliver :
    (decrypt : Text → Option Text) (now : Instant) (code : ℕ) (row : DeviceAuthorization)
    (db : DeviceDb)
    → get device_key code db.authorizations ≡ some row
    → row.status ≡ DeviceAuthStatus.approved
    → poll decrypt now code db ≡ deliver decrypt code row db
unfolding poll
poll-deliver decrypt now code row db found done = ground (arith, found, done)

-- a poll changes the row of its code only
pub poll-rows :
    (decrypt : Text → Option Text) (now : Instant) (code : ℕ) (db : DeviceDb)
    → ((poll decrypt now code db).1.authorizations ≡ db.authorizations)
      ⊎ ((row : DeviceAuthorization) × (get device_key code db.authorizations ≡ some row)
          × Polled code db (poll decrypt now code db).1.authorizations row)
unfolding poll
poll-rows decrypt now code db = elim (Option-cases (get device_key code db.authorizations)) [
  | inl gone ↦ inl (rw (gone, poll) refl)
  | inr (row, found) ↦ elim (status-cases row.status) [
    | inl waits ↦ inr (
      row,
      found,
      rw (poll-poll_pending decrypt now code row db found waits)
          (poll_pending-Polled now code row db waits),
    )
    | inr (inl done) ↦ inr (
      row,
      found,
      rw (poll-deliver decrypt now code row db found done)
          (deliver-Polled decrypt code row db done),
    )
    | inr (inr (inl denied)) ↦ inl (rw (found, denied, poll) refl)
    | inr (inr (inr over)) ↦ inl (rw (found, over, poll) refl)
  ]
]
