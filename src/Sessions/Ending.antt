-- ===== src/Sessions/Ending.antt =====
-- The sessions of src/ai_api/auth/sessions.py that have ended.
use ai_api.Base.{
  ℕ, ◌≤◌, ◌≡◌, inl, inr, refl, Bool, true, false, Option, none, some, List, [], ◌∷◌, arith, All,
  All-append, get, modify, update_where, ok, ◌==◌, ◌||◌, leb, if◌then◌else◌, Bool-cases,
  Option-cases,
}
use ai_api.Models.{Text, Instant, Member, member_is_active}
use ai_api.Allocations.{member_key}
use ai_api.Sessions.{
  Session, session_is_active, session_id, new_session, create_session, revoke_row, touch,
  member_disabled_reason, in_time, admit, lookup_session, validate_session, revoke_session,
  active_of, revoke_all_for_member,
}

-- the calls that write sessions, each with the instant and the members that it finds
pub data Call : Type 0 where
  create_call : ℕ → ℕ → ℕ → ℕ → Instant → Call
  validate_call : Text → Instant → List Member → Call
  revoke_call : Text → Text → Instant → Call
  revoke_all_call : ℕ → Text → Instant → Call

-- a session that is revoked, or expired at an instant
abbrev pub has_ended : Instant → Session → Bool
has_ended time s = (if session_is_active s.status then false else true) || leb s.expires_at time

-- the sessions under a fingerprint have ended
abbrev pub Ended : ℕ → Instant → List Session → Type 0
Ended fp time = All (λ s. (s.id == fp) ≡ true → has_ended time s ≡ true)

Ended-modify :
    (fp : ℕ) (time : Instant) (id : ℕ) (f : Session → Session) (rows : List Session)
    → ((s : Session)
        → (session_id (f s) ≡ s.id) × (has_ended time s ≡ true → has_ended time (f s) ≡ true))
    → Ended fp time rows
    → Ended fp time (modify session_id id f rows)
Ended-modify fp time id f [] keeps h = tt
Ended-modify fp time id f (s ∷ rows) keeps h = (
  elim (Bool-cases (s.id == id)) [
    | inl same ↦ rw same (λ found. (keeps s).1 (h.0 (rw (keeps s).0 at found)))
    | inr other ↦ rw other h.0
  ],
  Ended-modify fp time id f rows keeps h.1,
)

Ended-update_where :
    (fp : ℕ) (time : Instant) (p : Session → Bool) (f : Session → Session) (rows : List Session)
    → ((s : Session)
        → (session_id (f s) ≡ s.id) × (has_ended time s ≡ true → has_ended time (f s) ≡ true))
    → Ended fp time rows
    → Ended fp time (update_where p f rows)
Ended-update_where fp time p f [] keeps h = tt
Ended-update_where fp time p f (s ∷ rows) keeps h = (
  elim (Bool-cases (p s)) [
    | inl same ↦ rw same (λ found. (keeps s).1 (h.0 (rw (keeps s).0 at found)))
    | inr other ↦ rw other h.0
  ],
  Ended-update_where fp time p f rows keeps h.1,
)

revoke_row-has_ended :
    (time : Instant) (reason : Text) (now : Instant) (s : Session)
    → (session_id (revoke_row reason now s) ≡ s.id)
      × (has_ended time s ≡ true → has_ended time (revoke_row reason now s) ≡ true)
unfolding revoke_row
revoke_row-has_ended time reason now s = (refl, λ _. refl)

touch-has_ended :
    (time now : Instant) (s : Session)
    → (session_id (touch now s) ≡ s.id)
      × (has_ended time s ≡ true → has_ended time (touch now s) ≡ true)
unfolding touch
touch-has_ended time now s = (refl, λ h. h)

Ended-admit :
    (fp : ℕ) (time now : Instant) (s : Session) (member : Option Member) (rows : List Session)
    → Ended fp time rows
    → Ended fp time (admit now s member rows).1
unfolding admit
Ended-admit fp time now s none rows h = h
Ended-admit fp time now s (some member) rows h =
    elim (Bool-cases (member_is_active member.status)) [
      | inl active ↦
          rw active (Ended-modify fp time s.id (touch now) rows (touch-has_ended time now) h)
      | inr disabled ↦ rw disabled (
          Ended-modify fp time s.id (revoke_row member_disabled_reason now) rows
            (revoke_row-has_ended time member_disabled_reason now) h)
    ]

module _ (fingerprint : Text → ℕ) where
  Ended-validate_session :
      (fp : ℕ) (time : Instant) (token : Text) (now : Instant) (members : List Member)
      (rows : List Session)
      → Ended fp time rows
      → Ended fp time (validate_session fingerprint token now members rows).1
  unfolding validate_session
  Ended-validate_session fp time token now members rows h =
      elim (Option-cases (lookup_session fingerprint token rows)) [
        | inl missing ↦ rw (missing, validate_session) h
        | inr (s, found) ↦ elim (Bool-cases (in_time now s)) [
          | inl timely ↦
              rw (found, timely, validate_session)
                (Ended-admit fp time now s (get member_key s.member_id members) rows h)
          | inr late ↦ rw (found, late, validate_session) h
        ]
      ]

  pub run : Call → List Session → List Session
  run (create_call fp member lifetime idle now) rows =
      create_session fp member lifetime idle now rows
  run (validate_call token now members) rows =
      (validate_session fingerprint token now members rows).1
  run (revoke_call token reason now) rows = revoke_session fingerprint token reason now rows
  run (revoke_all_call member reason now) rows = (revoke_all_for_member member reason now rows).1

  pub run_all : List Call → List Session → List Session
  run_all [] rows = rows
  run_all (c ∷ calls) rows = run_all calls (run c rows)

  -- no session is created under a fingerprint
  abbrev pub CreatesOther : ℕ → Call → Type 0
  CreatesOther fp (create_call other _ _ _ _) = (other == fp) ≡ false
  CreatesOther fp _ = Unit

  Ended-run :
      (fp : ℕ) (time : Instant) (c : Call) (rows : List Session)
      → CreatesOther fp c
      → Ended fp time rows
      → Ended fp time (run c rows)
  unfolding run create_session new_session revoke_session revoke_all_for_member
  Ended-run fp time (create_call other member lifetime idle now) rows fresh h =
      All-append _ rows _ h ((λ found. absurd (ground (arith, fresh, found))), tt)
  Ended-run fp time (validate_call token now members) rows _ h =
      Ended-validate_session fp time token now members rows h
  Ended-run fp time (revoke_call token reason now) rows _ h =
      Ended-update_where fp time _ (revoke_row reason now) rows
        (revoke_row-has_ended time reason now) h
  Ended-run fp time (revoke_all_call member reason now) rows _ h =
      Ended-update_where fp time _ (revoke_row reason now) rows
        (revoke_row-has_ended time reason now) h

  Ended-run_all :
      (fp : ℕ) (time : Instant) (calls : List Call) (rows : List Session)
      → All (CreatesOther fp) calls
      → Ended fp time rows
      → Ended fp time (run_all calls rows)
  unfolding run_all
  Ended-run_all fp time [] rows _ h = h
  Ended-run_all fp time (c ∷ calls) rows fresh h =
      Ended-run_all fp time calls (run c rows) fresh.1 (Ended-run fp time c rows fresh.0 h)

  Ended-get :
      (fp : ℕ) (time : Instant) (rows : List Session) (s : Session)
      → Ended fp time rows
      → get session_id fp rows ≡ some s
      → has_ended time s ≡ true
  Ended-get fp time [] s h found = absurd (cc)
  Ended-get fp time (r ∷ rows) s h found = elim (Bool-cases (r.id == fp)) [
    | inl same ↦ ground (arith, found, same, h.0 same)
    | inr other ↦ Ended-get fp time rows s h.1 (ground (arith, found, other))
  ]

  has_ended-in_time :
      (time now : Instant) (s : Session)
      → time ≤ now
      → has_ended time s ≡ true
      → in_time now s ≡ false
  unfolding in_time
  has_ended-in_time time now s le h = ground (arith, le, h)

  Ended-refused :
      (token : Text) (time now : Instant) (members : List Member) (rows : List Session)
      → time ≤ now
      → Ended (fingerprint token) time rows
      → (validate_session fingerprint token now members rows).0 ≡ ok none
  unfolding validate_session lookup_session
  Ended-refused [] time now members rows le h = refl
  Ended-refused (c ∷ token) time now members rows le h =
      elim (Option-cases (get session_id (fingerprint (c ∷ token)) rows)) [
        | inl missing ↦ ground (arith, missing)
        | inr (s, found) ↦ ground (
          arith,
          found,
          has_ended-in_time time now s le (Ended-get (fingerprint (c ∷ token)) time rows s h found),
        )
      ]

  -- A session that has ended stays ended: when every session under a token's fingerprint is revoked, or expired
  -- at an instant, then after whatever sign-ins under other fingerprints, validations, sign-outs and
  -- revocations, the token is refused at that instant and ever after.
  pub ended_for_good :
      (token : Text) (time now : Instant) (members : List Member) (calls : List Call)
      (rows : List Session)
      → time ≤ now
      → All (λ s. (s.id == fingerprint token) ≡ true → has_ended time s ≡ true) rows
      → All (CreatesOther (fingerprint token)) calls
      → (validate_session fingerprint token now members (run_all calls rows)).0 ≡ ok none
  ended_for_good token time now members calls rows le h fresh =
      Ended-refused token time now members (run_all calls rows) le
        (Ended-run_all (fingerprint token) time calls rows fresh h)

-- a session of the member that is not active anymore has ended
has_ended-inactive :
    (member : ℕ) (s : Session)
    → (s.member_id == member) ≡ true
    → active_of member s ≡ false
    → has_ended 0 s ≡ true
has_ended-inactive member s own inactive = elim (Bool-cases (session_is_active s.status)) [
  | inl active ↦ absurd (ground (arith, own, inactive, active))
  | inr ended ↦ rw ended refl
]

-- what the revocation of all of a member's sessions leaves of them
pub Ended-revoke_all_for_member :
    (fp member : ℕ) (reason : Text) (now : Instant) (rows : List Session)
    → All (λ s. (s.id == fp) ≡ true → (s.member_id == member) ≡ true) rows
    → All
        (λ s. (s.id == fp) ≡ true → has_ended 0 s ≡ true)
        (revoke_all_for_member member reason now rows).1
unfolding revoke_all_for_member revoke_row
Ended-revoke_all_for_member fp member reason now [] h = tt
Ended-revoke_all_for_member fp member reason now (s ∷ rows) h = (
  elim (Bool-cases (active_of member s)) [
    | inl active ↦ rw active (λ found. refl)
    | inr inactive ↦ rw inactive (λ found. has_ended-inactive member s (h.0 found) inactive)
  ],
  Ended-revoke_all_for_member fp member reason now rows h.1,
)
