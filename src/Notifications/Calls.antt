-- ===== src/Notifications/Calls.antt =====
-- The calls of notifications.py and notifier_email.py that write, in one sequence.
use ai_api.Base.{ℕ, none, List, [], ◌∷◌}
use ai_api.Models.{Text, Instant}
use ai_api.Notifications.{Crypto, ConfigForm, save}
use ai_api.Notifications.Tables.{Outbox, SmtpResult}
use ai_api.Notifications.Mailer.{notify, test_send}

-- each with the instant at which it runs, fresh ids and what the mail server would answer
pub data Call : Type 0 where
  save_call : ℕ → Instant → ConfigForm → Call
  delete_call : Call
  notify_call : ℕ → ℕ → Instant → Text → SmtpResult → Call
  test_call : ℕ → Instant → Text → SmtpResult → Call

unfoldable pub run : Crypto → Call → Outbox → Outbox
unfolding save notify test_send
run crypto (save_call nonce now form) st = record st {
  config = (save crypto nonce now form st.config).1;
}
run crypto delete_call st = record st { config = none }
run crypto (notify_call id record_id now event result) st =
    notify crypto id record_id now event result st
run crypto (test_call record_id now recipient result) st =
    (test_send crypto record_id now recipient result st).1

unfoldable pub run_all : Crypto → List Call → Outbox → Outbox
run_all crypto [] st = st
run_all crypto (c ∷ calls) st = run_all crypto calls (run crypto c st)
