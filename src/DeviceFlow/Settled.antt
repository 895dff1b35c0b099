-- ===== src/DeviceFlow/Settled.antt =====
-- The states of a device authorization after it has been settled.
use mathlib.Core.Option
use ai_api.Base.{
  ℕ, ◌≡◌, ◌⊎◌, inl, inr, refl, sym, ap, ◌∙◌, true, false, Option, some, List, [], ◌∷◌, map, arith,
  get, modify, get-modify_self, get-modify_ne, get-append_found, keys-modify, ◌==◌, ==_iff,
  Bool-cases,
}
use ai_api.Models.{Text, Instant}
use ai_api.DeviceFlow.{authorize, expire, get_pending, Approval, approve, deny, clear_token, poll}
use ai_api.DeviceFlow.Tables.{
  DeviceAuthStatus, is_pending, DeviceAuthorization, device_key, user_key, DeviceDb,
}
use ai_api.Base.UniqueKeys.{
  Distinct, Distinct-append_new, get-modify_other, map-modify_other, same_row, All-missing,
  map-append_one,
}
use ai_api.DeviceFlow.Changes.{
  get_pending-rows, PendingChange, deny-rows, approve-rows, authorize-rows,
}
use ai_api.DeviceFlow.PollChanges.{poll-rows}

-- the calls that write the table, with what they take beside it
pub data Call : Type 0 where
  authorize_call : ℕ → (ℕ → ℕ) → Option Text → Instant → Call
  get_pending_call deny_call : Instant → ℕ → Call
  approve_call : (Text → Text) → Approval → Instant → ℕ → List ℕ → Call
  poll_call : (Text → Option Text) → Instant → ℕ → Call

unfoldable pub run : Call → DeviceDb → DeviceDb
run (authorize_call device codes label now) db = (authorize device codes label now db).1
run (get_pending_call now code) db = (get_pending now code db).1
run (deny_call now code) db = (deny now code db).1
run (approve_call encrypt by now code ids) db = (approve encrypt by now code ids db).1
run (poll_call decrypt now code) db = (poll decrypt now code db).1

unfoldable pub run_all : List Call → DeviceDb → DeviceDb
run_all [] db = db
run_all (c ∷ cs) db = run_all cs (run c db)

-- the user codes are unique
abbrev pub UniqueCodes : DeviceDb → Type 0
UniqueCodes db = Distinct (map user_key db.authorizations)

-- the row of a device code, in a table of unique user codes
abbrev Kept : ℕ → DeviceAuthorization → List DeviceAuthorization → Type 0
Kept d a rows = Distinct (map user_key rows) × (get device_key d rows ≡ some a)

module _ (d : ℕ) (a : DeviceAuthorization) (settled : is_pending a.status ≡ false) where
  other_code :
      (code : ℕ) (rows : List DeviceAuthorization) (p : DeviceAuthorization)
      → Kept d a rows
      → get user_key code rows ≡ some p
      → is_pending p.status ≡ true
      → (a.user_code == code) ≡ false
  other_code code rows p (distinct, here) found waits = elim (Bool-cases (a.user_code == code)) [
    | inr other ↦ other
    | inl same ↦
        let e : a.user_code ≡ code = (==_iff a.user_code code).0 same in
        absurd (cc (same_row device_key user_key d rows a distinct here))
  ]

  Kept-modify :
      (code : ℕ) (f : DeviceAuthorization → DeviceAuthorization) (rows : List DeviceAuthorization)
      (p : DeviceAuthorization)
      → ((x : DeviceAuthorization) → (f x).device_code ≡ x.device_code)
      → ((x : DeviceAuthorization) → (f x).user_code ≡ x.user_code)
      → Kept d a rows
      → get user_key code rows ≡ some p
      → is_pending p.status ≡ true
      → Kept d a (modify user_key code f rows)
  Kept-modify code f rows p device user h found waits = (
    rw (keys-modify user_key code f rows user) h.0,
    ground (
      arith,
      get-modify_other device_key user_key d code f rows device,
      other_code code rows p h found waits,
      h.1,
    ),
  )

  get_pending-Kept :
      (now : Instant) (code : ℕ) (db : DeviceDb)
      → Kept d a db.authorizations
      → Kept d a (get_pending now code db).1.authorizations
  get_pending-Kept now code db h = elim (get_pending-rows now code db) [
    | inl same ↦ rw same h
    | inr (p, found, waits, new) ↦
        rw new (Kept-modify code expire db.authorizations p (λ x. refl) (λ x. refl) h found waits)
  ]

-- what may become of a settled row: nothing, or the token of an approved one is taken away
abbrev Settles : DeviceAuthorization → DeviceAuthorization → Type 0
Settles a b = (b ≡ a) ⊎ ((a.status ≡ DeviceAuthStatus.approved) × (b ≡ clear_token a))

module _ (d : ℕ) (a : DeviceAuthorization) (settled : is_pending a.status ≡ false) where
  PendingChange-Kept :
      (code : ℕ) (db : DeviceDb) (rows : List DeviceAuthorization)
      → Kept d a db.authorizations
      → PendingChange code db rows
      → Kept d a rows
  PendingChange-Kept code db rows h (row, f, found, waits, device, user, new) =
      rw new (Kept-modify d a settled code f db.authorizations row device user h found waits)

  deny-Kept :
      (now : Instant) (code : ℕ) (db : DeviceDb)
      → Kept d a db.authorizations
      → Kept d a (deny now code db).1.authorizations
  deny-Kept now code db h = elim (deny-rows now code db) [
    | inl same ↦ rw same (get_pending-Kept d a settled now code db h)
    | inr change ↦ PendingChange-Kept code db _ h change
  ]

  approve-Kept :
      (encrypt : Text → Text) (by : Approval) (now : Instant) (code : ℕ) (ids : List ℕ)
      (db : DeviceDb)
      → Kept d a db.authorizations
      → Kept d a (approve encrypt by now code ids db).1.authorizations
  approve-Kept encrypt by now code ids db h = elim (approve-rows encrypt by now code ids db) [
    | inl same ↦ rw same (get_pending-Kept d a settled now code db h)
    | inr change ↦ PendingChange-Kept code db _ h change
  ]

  authorize-Kept :
      (device : ℕ) (codes : ℕ → ℕ) (label : Option Text) (now : Instant) (db : DeviceDb)
      → Kept d a db.authorizations
      → Kept d a (authorize device codes label now db).1.authorizations
  authorize-Kept device codes label now db h = elim (authorize-rows device codes label now db) [
    | inl same ↦ rw same h
    | inr (row, new, added) ↦ rw added (
      rw (map-append_one user_key db.authorizations row) (
          Distinct-append_new _ row.user_code
            (All-missing user_key row.user_code db.authorizations new) h.0),
      get-append_found device_key d db.authorizations (row ∷ []) a h.1,
    )
  ]

  poll-Kept :
      (decrypt : Text → Option Text) (now : Instant) (code : ℕ) (db : DeviceDb)
      → Kept d a db.authorizations
      → (b : DeviceAuthorization) × Settles a b
        × Kept d b (poll decrypt now code db).1.authorizations
  poll-Kept decrypt now code db h = elim (poll-rows decrypt now code db) [
    | inl same ↦ (a, inl refl, rw same h)
    | inr (row, found, inl same) ↦ (a, inl refl, rw same h)
    | inr (row, found, inr (f, device, user, what, new)) ↦
        let distinct : Distinct (map user_key (modify device_key code f db.authorizations)) =
          rw (map-modify_other user_key device_key code f db.authorizations user) h.0 in
        elim (Bool-cases (code == d)) [
          | inr other ↦ (
            a,
            inl refl,
            rw new (
              distinct,
              ground
                  (arith, get-modify_ne device_key code d f db.authorizations device, other, h.1),
            ),
          )
          | inl same ↦
              let e : code ≡ d = (==_iff code d).0 same in
              let own : row ≡ a = cc (found, h.1, e) in
              let changed : get device_key code (modify device_key code f db.authorizations)
                  ≡ some (f row) =
                get-modify_self device_key code f db.authorizations device
                ∙ ap (Option.map f) found in
              elim what [
                | inl waits ↦ absurd (cc (settled, own))
                | inr (done, cleared) ↦ (
                  clear_token a,
                  inr (ap (λ (r : DeviceAuthorization). r.status) (sym own) ∙ done, refl),
                  rw new (
                    distinct,
                    ap (λ c. get device_key c (modify device_key code f db.authorizations)) (sym e)
                        ∙ changed
                        ∙ ap some cleared
                        ∙ ap (λ (r : DeviceAuthorization). some (clear_token r)) own,
                  ),
                )
              ]
        ]
  ]

run-Kept :
    (call : Call) (d : ℕ) (a : DeviceAuthorization) (db : DeviceDb)
    → is_pending a.status ≡ false
    → Kept d a db.authorizations
    → (b : DeviceAuthorization) × Settles a b × Kept d b (run call db).authorizations
unfolding run
run-Kept (authorize_call device codes label now) d a db settled h =
    (a, inl refl, authorize-Kept d a settled device codes label now db h)
run-Kept (get_pending_call now code) d a db settled h =
    (a, inl refl, get_pending-Kept d a settled now code db h)
run-Kept (deny_call now code) d a db settled h = (a, inl refl, deny-Kept d a settled now code db h)
run-Kept (approve_call encrypt by now code ids) d a db settled h =
    (a, inl refl, approve-Kept d a settled encrypt by now code ids db h)
run-Kept (poll_call decrypt now code) d a db settled h = poll-Kept d a settled decrypt now code db h

still_settled :
    (a b : DeviceAuthorization)
    → is_pending a.status ≡ false
    → Settles a b
    → is_pending b.status ≡ false
still_settled a b settled (inl same) = rw same settled
still_settled a b settled (inr (done, cleared)) = rw cleared settled

Settles-trans : (a b c : DeviceAuthorization) → Settles a b → Settles b c → Settles a c
Settles-trans a b c (inl same) k = rw same at k
Settles-trans a b c (inr (done, cleared)) (inl same) = inr (done, same ∙ cleared)
Settles-trans a b c (inr (done, cleared)) (inr (_, again)) =
    inr (done, again ∙ ap (λ (r : DeviceAuthorization). clear_token r) cleared)

-- Once a request is approved, denied or expired, no sequence of calls revives or changes it: a denied
-- or expired row stays the same, and of an approved one the token alone may be taken away. The user
-- codes of the table are unique at the start.
pub settled_for_good :
    (calls : List Call) (device : ℕ) (a : DeviceAuthorization) (db : DeviceDb)
    → UniqueCodes db
    → get device_key device db.authorizations ≡ some a
    → is_pending a.status ≡ false
    → (b : DeviceAuthorization) × (get device_key device (run_all calls db).authorizations ≡ some b)
      × Settles a b
unfolding run_all
settled_for_good [] device a db unique h settled = (a, h, inl refl)
settled_for_good (call ∷ calls) device a db unique h settled =
    let (b, first, kept) = run-Kept call device a db settled (unique, h) in
    let (c, last, rest) =
      settled_for_good calls device b (run call db) kept.0 kept.1
        (still_settled a b settled first) in
    (c, last, Settles-trans a b c first rest)
