-- ===== src/RateLimit/Tests.antt =====
-- Five failures of one email within a minute.
use ai_api.Base.{◌≡◌, refl, true, false, none, List, [], ◌∷◌, arith, any, lower, text_eq, ◌*◌}
use ai_api.Models.{Text, Instant, second}
use ai_api.RateLimit.{AttemptOutcome, PasswordAttempt, locks_email, is_locked}
use ai_api.RateLimit.Lockout.{record_call, is_ip_locked_call, run_all, lockout_lasts}

abbrev email : Text
email = b'a' ∷ []

abbrev failure : Instant → PasswordAttempt
failure at = record {
  email = email;
  attempted_at = at;
  source_ip = none;
  outcome = AttemptOutcome.bad_password;
}

abbrev failures : List PasswordAttempt
failures = failure 1 ∷ failure 2 ∷ failure 3 ∷ failure 4 ∷ failure 5 ∷ []

locks_out : (is_locked email 6 failures).0 ≡ true
unfolding is_locked text_eq lower
locks_out = refl

unmarked : any (locks_email (lower email) 6) failures ≡ false
unfolding text_eq lower
unmarked = refl

lockout_lasts_example :
    (is_locked email (800 * second) (
      run_all
        (record_call email AttemptOutcome.success none 7 ∷ is_ip_locked_call 10 none 8 ∷ [])
        (is_locked email 6 failures).1)).0
    ≡ true
lockout_lasts_example =
    lockout_lasts email 6 (800 * second)
      (record_call email AttemptOutcome.success none 7 ∷ is_ip_locked_call 10 none 8 ∷ []) failures
      unmarked locks_out (omega arith)
