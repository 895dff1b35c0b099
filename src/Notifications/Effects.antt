-- ===== src/Notifications/Effects.antt =====
-- The writes that the calls on notifications consist of. What each of them keeps, a sequence of calls keeps.
use ai_api.Base.{
  ℕ, ◌≡◌, ◌||◌, inl, inr, refl, not, Option, none, some, List, [], ◌∷◌, modify, is_empty,
  Bool-cases,
}
use ai_api.Models.{Text, Instant}
use ai_api.Notifications.{Crypto, ConfigForm, NotificationConfig, NotificationConfigStatus, save}
use ai_api.Notifications.Tables.{
  Outbox, NotificationDedupBucket, NotificationRecord, SmtpResult, active_bucket, bucket_key,
  count_event,
}
use ai_api.Notifications.Mailer.{
  open_bucket, with_status, is_invalid, notify_gated, notify_ready, notify_with, notify, judge,
  connection, test_outcome, send_test, test_with, test_send,
}
use ai_api.Notifications.Calls.{Call, save_call, delete_call, notify_call, test_call, run, run_all}

pub record IsKept (crypto : Crypto) (P : Outbox → Type 0) : Type 0 where
  pub recorded :
      (rows : List NotificationRecord) (st : Outbox) → P st → P (record st { records = rows })
  pub saved :
      (nonce : ℕ) (now : Instant) (form : ConfigForm) (st : Outbox)
      → P st
      → P (record st { config = (save crypto nonce now form st.config).1 })
  pub deleted : (st : Outbox) → P st → P (record st { config = none })
  pub invalidated :
      (cfg : NotificationConfig) (st : Outbox)
      → P st
      → P (record st {
        config = some (with_status NotificationConfigStatus.credentials_invalid cfg);
      })
  pub counted :
      (id : ℕ) (now : Instant) (st : Outbox)
      → P st
      → P (record st { buckets = modify bucket_key id (count_event now) st.buckets })
  pub alerted :
      (id record_id : ℕ) (now : Instant) (event : Text) (st : Outbox)
      → active_bucket now event st.buckets ≡ none
      → P st
      → P (record st {
        buckets = open_bucket id record_id now event ∷ st.buckets;
        alerts = record { event_type = event; at = now } ∷ st.alerts;
      })
  pub judged :
      (now : Instant) (result : SmtpResult) (cfg : NotificationConfig) (st : Outbox)
      → st.config ≡ some cfg
      → P st
      → P (record st {
        config = some (judge now (test_outcome result) cfg);
        attempts = record { connection = connection cfg; answer = result } ∷ st.attempts;
      })

module _ {crypto : Crypto} (P : Outbox → Type 0) (kept : IsKept crypto P) where
  notify_gated-kept :
      (id record_id : ℕ) (now : Instant) (event : Text) (result : SmtpResult)
      (cfg : NotificationConfig) (found : Option NotificationDedupBucket) (st : Outbox)
      → active_bucket now event st.buckets ≡ found
      → P st
      → P (notify_gated id record_id now event result cfg found st)
  unfolding notify_gated
  notify_gated-kept id record_id now event result cfg none st none_open h =
      kept.recorded _ _ (kept.alerted id record_id now event st none_open h)
  notify_gated-kept id record_id now event result cfg (some b) st active h =
      kept.recorded _ _ (kept.counted b.id now st h)

  notify_ready-kept :
      (id record_id : ℕ) (now : Instant) (event : Text) (result : SmtpResult)
      (cfg : NotificationConfig) (password : Option Text) (st : Outbox)
      → P st
      → P (notify_ready id record_id now event result cfg password st)
  unfolding notify_ready
  notify_ready-kept id record_id now event result cfg none st h =
      kept.recorded _ _ (kept.invalidated cfg st h)
  notify_ready-kept id record_id now event result cfg (some password) st h =
      notify_gated-kept id record_id now event result cfg (active_bucket now event st.buckets) st
        refl h

  notify_with-kept :
      (id record_id : ℕ) (now : Instant) (event : Text) (result : SmtpResult)
      (config : Option NotificationConfig) (st : Outbox)
      → P st
      → P (notify_with crypto id record_id now event result config st)
  unfolding notify_with
  notify_with-kept id record_id now event result none st h = kept.recorded _ st h
  notify_with-kept id record_id now event result (some cfg) st h =
      elim (Bool-cases (not cfg.enabled || is_invalid cfg.status)) [
        | inl skipped ↦ rw skipped (kept.recorded _ st h)
        | inr ready ↦ rw ready (elim (Bool-cases (is_empty cfg.recipients)) [
          | inl nobody ↦ rw nobody (kept.recorded _ st h)
          | inr some_one ↦ rw some_one (
              notify_ready-kept id record_id now event result cfg
                (crypto.decrypt_str cfg.smtp_password_encrypted) st h)
        ])
      ]

  send_test-kept :
      (record_id : ℕ) (now : Instant) (recipient : Text) (result : SmtpResult)
      (cfg : NotificationConfig) (password : Option Text) (st : Outbox)
      → st.config ≡ some cfg
      → P st
      → P (send_test record_id now recipient result cfg password st).1
  unfolding send_test
  send_test-kept record_id now recipient result cfg none st set h =
      kept.recorded _ _ (kept.invalidated cfg st h)
  send_test-kept record_id now recipient result cfg (some password) st set h =
      kept.recorded _ _ (kept.judged now result cfg st set h)

  test_with-kept :
      (record_id : ℕ) (now : Instant) (recipient : Text) (result : SmtpResult)
      (config : Option NotificationConfig) (st : Outbox)
      → st.config ≡ config
      → P st
      → P (test_with crypto record_id now recipient result config st).1
  unfolding test_with
  test_with-kept record_id now recipient result none st unset h = h
  test_with-kept record_id now recipient result (some cfg) st set h =
      send_test-kept record_id now recipient result cfg
        (crypto.decrypt_str cfg.smtp_password_encrypted) st set h

  run-kept : (c : Call) (st : Outbox) → P st → P (run crypto c st)
  unfolding run notify test_send
  run-kept (save_call nonce now form) st h = kept.saved nonce now form st h
  run-kept delete_call st h = kept.deleted st h
  run-kept (notify_call id record_id now event result) st h =
      notify_with-kept id record_id now event result st.config st h
  run-kept (test_call record_id now recipient result) st h =
      test_with-kept record_id now recipient result st.config st refl h

  pub run_all-kept : (calls : List Call) (st : Outbox) → P st → P (run_all crypto calls st)
  unfolding run_all
  run_all-kept [] st h = h
  run_all-kept (c ∷ calls) st h = run_all-kept calls (run crypto c st) (run-kept c st h)
