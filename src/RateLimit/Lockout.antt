-- ===== src/RateLimit/Lockout.antt =====
-- How long a lockout of src/ai_api/auth/ratelimit.py lasts, and whom it concerns.
use ai_api.Base.{
  ℕ, ◌+◌, ◌≡◌, ◌≤◌, ◌⊎◌, inl, inr, refl, Bool, true, false, Option, none, some, List, [], ◌∷◌, ◌++◌,
  arith, filter, any, length, leb, text_eq, text_eq_refl, lower, Bool-cases,
}
use ai_api.Models.{Text, Instant}
use ai_api.RateLimit.{
  AttemptOutcome, PasswordAttempt, lock_duration, threshold, record_attempt, locks_email,
  fails_email, is_locked, ip_marker, is_address_locked, is_ip_locked,
}

-- the calls that write attempts
pub data Call : Type 0 where
  record_call : Text → AttemptOutcome → Option Text → Instant → Call
  is_locked_call : Text → Instant → Call
  is_ip_locked_call : ℕ → Option Text → Instant → Call

pub run : Call → List PasswordAttempt → List PasswordAttempt
run (record_call email outcome ip now) rows = record_attempt email outcome ip now rows
run (is_locked_call email now) rows = (is_locked email now rows).1
run (is_ip_locked_call perip ip now) rows = (is_ip_locked perip ip now rows).1

pub run_all : List Call → List PasswordAttempt → List PasswordAttempt
run_all [] rows = rows
run_all (c ∷ cs) rows = run_all cs (run c rows)

any-append :
    (p : PasswordAttempt → Bool) (xs ys : List PasswordAttempt)
    → any p xs ≡ true
    → any p (xs ++ ys) ≡ true
any-append p [] ys h = absurd (cc)
any-append p (x ∷ xs) ys h = ground (arith, any-append p xs ys)

any-append_last :
    (p : PasswordAttempt → Bool) (xs : List PasswordAttempt) (y : PasswordAttempt)
    → p y ≡ true
    → any p (xs ++ y ∷ []) ≡ true
any-append_last p [] y h = ground (arith, h)
any-append_last p (x ∷ xs) y h = ground (arith, any-append_last p xs y)

any-is_locked :
    (p : PasswordAttempt → Bool) (email : Text) (now : Instant) (rows : List PasswordAttempt)
    → any p rows ≡ true
    → any p (is_locked email now rows).1 ≡ true
unfolding is_locked record_attempt
any-is_locked p email now rows h = elim (Bool-cases (any (locks_email (lower email) now) rows)) [
  | inl marked ↦ rw (marked, is_locked) h
  | inr open_email ↦
      elim (Bool-cases (leb threshold (length (filter (fails_email (lower email) now) rows)))) [
        | inl many ↦ rw (open_email, many, is_locked) (any-append p rows _ h)
        | inr few ↦ rw (open_email, few, is_locked) h
      ]
]

any-is_address_locked :
    (p : PasswordAttempt → Bool) (perip : ℕ) (ip : Text) (now : Instant)
    (rows : List PasswordAttempt)
    → any p rows ≡ true
    → any p (is_address_locked perip ip now rows).1 ≡ true
unfolding is_address_locked
any-is_address_locked p perip ip now rows h = elim two [
  | inl same ↦ rw same h
  | inr more ↦ rw more (any-append p rows (ip_marker ip now ∷ []) h)
]
  where
    two :
        ((is_address_locked perip ip now rows).1 ≡ rows)
        ⊎ ((is_address_locked perip ip now rows).1 ≡ rows ++ ip_marker ip now ∷ [])
    two = ground arith

any-run :
    (p : PasswordAttempt → Bool) (call : Call) (rows : List PasswordAttempt)
    → any p rows ≡ true
    → any p (run call rows) ≡ true
unfolding run record_attempt is_ip_locked
any-run p (record_call email outcome ip now) rows h = any-append p rows _ h
any-run p (is_locked_call email now) rows h = any-is_locked p email now rows h
any-run p (is_ip_locked_call perip none now) rows h = h
any-run p (is_ip_locked_call perip (some []) now) rows h = h
any-run p (is_ip_locked_call perip (some (c ∷ ip)) now) rows h =
    any-is_address_locked p perip (c ∷ ip) now rows h

any-run_all :
    (p : PasswordAttempt → Bool) (calls : List Call) (rows : List PasswordAttempt)
    → any p rows ≡ true
    → any p (run_all calls rows) ≡ true
unfolding run_all
any-run_all p [] rows h = h
any-run_all p (call ∷ calls) rows h = any-run_all p calls (run call rows) (any-run p call rows h)

still_locked :
    (email : Text) (later : Instant) (rows : List PasswordAttempt)
    → any (locks_email (lower email) later) rows ≡ true
    → (is_locked email later rows).0 ≡ true
unfolding is_locked
still_locked email later rows h = rw (h, is_locked) refl

-- the marker that a new lockout writes
new_marker :
    (email : Text) (now later : Instant) (rows : List PasswordAttempt)
    → any (locks_email (lower email) now) rows ≡ false
    → (is_locked email now rows).0 ≡ true
    → later ≤ now + lock_duration
    → any (locks_email (lower email) later) (is_locked email now rows).1 ≡ true
unfolding is_locked record_attempt
new_marker email now later rows unmarked h soon =
    elim (Bool-cases (leb threshold (length (filter (fails_email (lower email) now) rows)))) [
      | inr few ↦ absurd (ground (arith, unmarked, few, h))
      | inl many ↦
          rw (unmarked, many, is_locked)
            (any-append_last (locks_email (lower email) later) rows _
              (ground (arith, soon, text_eq_refl (lower email))))
    ]

-- A lockout lasts its fifteen minutes: when the test of an email starts one, every test of the email up to
-- fifteen minutes later answers that it is locked, whatever attempts and tests come in between.
pub lockout_lasts :
    (email : Text) (now later : Instant) (calls : List Call) (rows : List PasswordAttempt)
    → any (locks_email (lower email) now) rows ≡ false
    → (is_locked email now rows).0 ≡ true
    → later ≤ now + lock_duration
    → (is_locked email later (run_all calls (is_locked email now rows).1)).0 ≡ true
lockout_lasts email now later calls rows unmarked h soon =
    still_locked email later (run_all calls (is_locked email now rows).1) (
      any-run_all (locks_email (lower email) later) calls (is_locked email now rows).1
        (new_marker email now later rows unmarked h soon))

any-append_not :
    (p : PasswordAttempt → Bool) (xs : List PasswordAttempt) (y : PasswordAttempt)
    → p y ≡ false
    → any p (xs ++ y ∷ []) ≡ any p xs
any-append_not p [] y h = ground (arith, h)
any-append_not p (x ∷ xs) y h = ground (arith, any-append_not p xs y)

filter-append_not :
    (p : PasswordAttempt → Bool) (xs : List PasswordAttempt) (y : PasswordAttempt)
    → p y ≡ false
    → filter p (xs ++ y ∷ []) ≡ filter p xs
filter-append_not p [] y h = ground (arith, h)
filter-append_not p (x ∷ xs) y h = ground (arith, filter-append_not p xs y)

-- The attempts of one email do not lock out another: what is recorded for an email that differs, in lower
-- case, leaves the answer of the test as it was.
pub lockout_of_one :
    (email other : Text) (outcome : AttemptOutcome) (ip : Option Text) (now later : Instant)
    (rows : List PasswordAttempt)
    → text_eq (lower other) (lower email) ≡ false
    → (is_locked email later (record_attempt other outcome ip now rows)).0
      ≡ (is_locked email later rows).0
unfolding is_locked record_attempt
lockout_of_one email other outcome ip now later rows differs =
    let y : PasswordAttempt = record {
      email = lower other;
      attempted_at = now;
      source_ip = ip;
      outcome = outcome;
    } in
    ground (
      arith,
      any-append_not (locks_email (lower email) later) rows y (ground (arith, differs)),
      filter-append_not (fails_email (lower email) later) rows y (ground (arith, differs)),
    )
