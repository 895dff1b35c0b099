-- ===== src/DeviceFlow/Lifetime.antt =====
-- The states of a device authorization after it has been settled, and the delivery of its token.
use mathlib.Core.Option
use ai_api.Base.{
  ℕ, ◌≡◌, inl, inr, refl, ap, ◌∙◌, Option, none, some, List, arith, get, modify, get-modify_self,
  Option-cases,
}
use ai_api.Models.{Text, Instant}
use ai_api.DeviceFlow.{success, expired_token, poll_pending, clear_token, deliver, poll}
use ai_api.DeviceFlow.Tables.{DeviceAuthStatus, DeviceAuthorization, device_key, user_key, DeviceDb}
use ai_api.Base.UniqueKeys.{map-modify_other}
use ai_api.DeviceFlow.Settled.{Call, run_all, UniqueCodes, settled_for_good}

-- A poll that hands a token out has found an approved row, and has cleared it.
success-row :
    (decrypt : Text → Option Text) (now : Instant) (device : ℕ) (db : DeviceDb) (token : Text)
    (credential : Option ℕ) (model : Option Text)
    → (poll decrypt now device db).0 ≡ some (success token credential model)
    → (row : DeviceAuthorization) × (get device_key device db.authorizations ≡ some row)
      × (row.status ≡ DeviceAuthStatus.approved)
      × ((poll decrypt now device db).1.authorizations
          ≡ modify device_key device clear_token db.authorizations)
unfolding poll poll_pending deliver
success-row decrypt now device db token credential model h =
    elim (Option-cases (get device_key device db.authorizations)) [
      | inl gone ↦ absurd (ground (arith, gone))
      | inr (row, found) ↦ (row, found, ground (arith, found), ground (arith, found))
    ]

nothing_left :
    (decrypt : Text → Option Text) (later : Instant) (device : ℕ) (row : DeviceAuthorization)
    (db : DeviceDb)
    → get device_key device db.authorizations ≡ some row
    → row.status ≡ DeviceAuthStatus.approved
    → row.encrypted_token ≡ none
    → (poll decrypt later device db).0 ≡ some expired_token
unfolding poll deliver
nothing_left decrypt later device row db found done taken = ground (arith, found, done, taken)

-- A token is delivered at most once: after a poll has handed it out, and whatever calls follow, a
-- further poll of the same device answers that the request has expired. The user codes of the table
-- are unique at the start.
pub delivered_once :
    (decrypt : Text → Option Text) (now later : Instant) (device : ℕ) (calls : List Call)
    (db : DeviceDb) (token : Text) (credential : Option ℕ) (model : Option Text)
    → UniqueCodes db
    → (poll decrypt now device db).0 ≡ some (success token credential model)
    → (poll decrypt later device (run_all calls (poll decrypt now device db).1)).0
      ≡ some expired_token
delivered_once decrypt now later device calls db token credential model unique h =
    let (row, found, done, new) = success-row decrypt now device db token credential model h in
    let after = (poll decrypt now device db).1 in
    let here : get device_key device after.authorizations ≡ some (clear_token row) = rw new (
      get-modify_self device_key device clear_token db.authorizations (λ x. refl)
      ∙ ap (Option.map (λ (r : DeviceAuthorization). clear_token r)) found) in
    let distinct : UniqueCodes after = rw new (
      rw (map-modify_other user_key device_key device clear_token db.authorizations (λ x. refl))
        unique) in
    let (b, last, what) =
      settled_for_good calls device (clear_token row) after distinct here (ground (arith, done)) in
    let end : b ≡ clear_token row = elim what [ inl same ↦ same | inr (_, cleared) ↦ cleared ] in
    nothing_left decrypt later device b (run_all calls after) last
      (ap (λ (r : DeviceAuthorization). r.status) end ∙ done)
      (ap (λ (r : DeviceAuthorization). r.encrypted_token) end)
