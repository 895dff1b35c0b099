-- ===== src/Members/Batches.antt =====
-- The number of active administrators after the batches of src/ai_api/api/admin_members.py.
use ai_api.Base.{
  ℕ, ◌≤◌, ◌≡◌, inl, inr, refl, ap, sym, ◌∙◌, Bool, true, false, Option, none, some, List, [], ◌∷◌,
  map, arith, if◌then◌else◌, Bool-cases,
}
use mathlib.Core.Path.{subst}
use ai_api.Base.UniqueKeys.{Distinct}
use ai_api.Models.{Instant, Member, MemberStatus, member_is_active}
use ai_api.Allocations.{member_key}
use ai_api.Tags.{contains}
use ai_api.Members.{same_status, update, is_active_admin, admin_count, set_is_admin, delete}
use ai_api.Members.Tables.{MemberDb, with_audit}
use ai_api.Members.Bulk.{
  not_found, bulk_delete, active_admin_ids, discard, status_event, change_status, status_turn,
  status_turns, bulk_set_status,
}
use ai_api.Members.LastAdmin.{IsSafe, IsSafe-set_is_admin, IsSafe-delete}
use ai_api.Members.StatusChanges.{
  members-set_status, update-cases, IsSafe-enabled, active_admin_ids-disabled, discard_missing,
  not_admin, guarded, IsSafe-disabled, Tracks,
}

members-with_audit :
    (status : MemberStatus) (id : ℕ) (db : MemberDb)
    → (with_audit (status_event status) id db).store.members ≡ db.store.members
unfolding with_audit
members-with_audit status id db = refl

change_status-missing :
    (now : Instant) (status : MemberStatus) (id : ℕ) (admins : List ℕ) (db : MemberDb)
    → (update now id (some status) db).0 ≡ none
    → change_status now status id admins db
      ≡ record { reason = some not_found; admins = admins; db = db }
unfolding change_status
change_status-missing now status id admins db missing = rw (missing, change_status) refl

change_status-done :
    (now : Instant) (status : MemberStatus) (id : ℕ) (admins : List ℕ) (db : MemberDb) (x : Member)
    → (update now id (some status) db).0 ≡ some x
    → change_status now status id admins db ≡ record {
      reason = none;
      admins = if member_is_active status then admins else discard id admins;
      db = with_audit (status_event status) id (update now id (some status) db).1;
    }
unfolding change_status
change_status-done now status id admins db x done = rw (done, change_status) refl

disabled_plain :
    (m : Member) → same_status MemberStatus.disabled m.status ≡ true → is_active_admin m ≡ false
disabled_plain m h = ground (arith, h)

-- the turn of a member who is to be disabled
Tracks-change_status :
    (now : Instant) (id : ℕ) (admins : List ℕ) (db : MemberDb)
    → Tracks admins db.store.members
    → guarded id admins ≡ false
    → Tracks
        (change_status now MemberStatus.disabled id admins db).admins
        (change_status now MemberStatus.disabled id admins db).db.store.members
Tracks-change_status now id admins db h guard =
    elim (update-cases now id MemberStatus.disabled db) [
      | inl (missing, _) ↦
          subst (λ t. Tracks t.admins t.db.store.members)
            (sym (change_status-missing now MemberStatus.disabled id admins db missing)) h
      | inr (m, x, found, done, result) ↦
          subst (λ t. Tracks t.admins t.db.store.members)
            (sym (change_status-done now MemberStatus.disabled id admins db x done))
            (subst (Tracks (discard id admins))
              (sym (
                members-with_audit MemberStatus.disabled id
                  (update now id (some MemberStatus.disabled) db).1))
              (elim result [
                | inl (same, kept) ↦
                    let unlisted = discard_missing id admins (
                      ap (λ ids. contains ids id) h.same
                      ∙ not_admin id db.store.members m h.safe.distinct found
                          (disabled_plain m same)) in
                    subst (Tracks (discard id admins)) (sym (ap (λ d. d.store.members) kept))
                      (subst (λ ids. Tracks ids db.store.members) (sym unlisted) h)
                | inr set ↦
                    subst (Tracks (discard id admins))
                      (sym (
                        ap (λ d. d.store.members) set
                        ∙ members-set_status now id MemberStatus.disabled db))
                      (record {
                        same =
                            ap (discard id) h.same
                            ∙ sym (active_admin_ids-disabled id db.store.members);
                        safe =
                            IsSafe-disabled id db.store.members h.safe
                              (ap (guarded id) (sym h.same) ∙ guard);
                      })
              ]))
    ]

Tracks-status_turn :
    (now : Instant) (id : ℕ) (admins : List ℕ) (db : MemberDb)
    → Tracks admins db.store.members
    → Tracks
        (status_turn now MemberStatus.disabled id admins db).admins
        (status_turn now MemberStatus.disabled id admins db).db.store.members
unfolding status_turn
Tracks-status_turn now id admins db h = elim (Bool-cases (guarded id admins)) [
  | inl last ↦ rw last h
  | inr safe ↦ rw safe (Tracks-change_status now id admins db h safe)
]

IsSafe-status_turns :
    (now : Instant) (ids admins : List ℕ) (db : MemberDb)
    → Tracks admins db.store.members
    → IsSafe (status_turns now MemberStatus.disabled ids admins db).1.store.members
unfolding status_turns
IsSafe-status_turns now [] admins db h = h.safe
IsSafe-status_turns now (id ∷ ids) admins db h =
    let t = status_turn now MemberStatus.disabled id admins db in
    IsSafe-status_turns now ids t.admins t.db (Tracks-status_turn now id admins db h)

-- the turn of a member who is to be enabled
IsSafe-enabling :
    (now : Instant) (id : ℕ) (admins : List ℕ) (db : MemberDb)
    → IsSafe db.store.members
    → IsSafe (status_turn now MemberStatus.active id admins db).db.store.members
unfolding status_turn
IsSafe-enabling now id admins db h = elim (update-cases now id MemberStatus.active db) [
  | inl (missing, _) ↦
      subst (λ t. IsSafe t.db.store.members)
        (sym (change_status-missing now MemberStatus.active id admins db missing)) h
  | inr (m, x, found, done, result) ↦
      subst (λ t. IsSafe t.db.store.members)
        (sym (change_status-done now MemberStatus.active id admins db x done))
        (subst IsSafe
          (sym (
            members-with_audit MemberStatus.active id
              (update now id (some MemberStatus.active) db).1))
          (elim result [
            | inl (_, kept) ↦ subst IsSafe (sym (ap (λ d. d.store.members) kept)) h
            | inr set ↦
                subst IsSafe
                  (sym (
                    ap (λ d. d.store.members) set
                    ∙ members-set_status now id MemberStatus.active db))
                  (IsSafe-enabled id db.store.members h)
          ]))
]

IsSafe-enabling_turns :
    (now : Instant) (ids admins : List ℕ) (db : MemberDb)
    → IsSafe db.store.members
    → IsSafe (status_turns now MemberStatus.active ids admins db).1.store.members
unfolding status_turns
IsSafe-enabling_turns now [] admins db h = h
IsSafe-enabling_turns now (id ∷ ids) admins db h =
    let t = status_turn now MemberStatus.active id admins db in
    IsSafe-enabling_turns now ids t.admins t.db (IsSafe-enabling now id admins db h)

IsSafe-bulk_set_status :
    (now : Instant) (status : MemberStatus) (ids : List ℕ) (db : MemberDb)
    → IsSafe db.store.members
    → IsSafe (bulk_set_status now status ids db).1.store.members
unfolding bulk_set_status
IsSafe-bulk_set_status now MemberStatus.active ids db h = IsSafe-enabling_turns now ids [] db h
IsSafe-bulk_set_status now MemberStatus.disabled ids db h =
    IsSafe-status_turns now ids (active_admin_ids db.store.members) db
      (record { same = refl; safe = h })

IsSafe-bulk_delete :
    (ids : List ℕ) (acting : Option ℕ) (db : MemberDb)
    → IsSafe db.store.members
    → IsSafe (bulk_delete ids acting db).1.store.members
unfolding bulk_delete
IsSafe-bulk_delete [] acting db h = h
IsSafe-bulk_delete (id ∷ ids) acting db h =
    IsSafe-bulk_delete ids acting (delete id acting db).1 (IsSafe-delete id acting db h)

-- the calls of an administrator that guard the last one
pub data Call : Type 0 where
  set_is_admin_call : ℕ → Bool → Call
  delete_call : ℕ → Option ℕ → Call
  bulk_delete_call : List ℕ → Option ℕ → Call
  bulk_set_status_call : Instant → MemberStatus → List ℕ → Call

pub run : Call → MemberDb → MemberDb
run (set_is_admin_call id is_admin) db = (set_is_admin id is_admin db).1
run (delete_call id acting) db = (delete id acting db).1
run (bulk_delete_call ids acting) db = (bulk_delete ids acting db).1
run (bulk_set_status_call now status ids) db = (bulk_set_status now status ids db).1

pub run_all : List Call → MemberDb → MemberDb
run_all [] db = db
run_all (c ∷ calls) db = run_all calls (run c db)

IsSafe-run : (c : Call) (db : MemberDb) → IsSafe db.store.members → IsSafe (run c db).store.members
unfolding run
IsSafe-run (set_is_admin_call id is_admin) db h = IsSafe-set_is_admin id is_admin db h
IsSafe-run (delete_call id acting) db h = IsSafe-delete id acting db h
IsSafe-run (bulk_delete_call ids acting) db h = IsSafe-bulk_delete ids acting db h
IsSafe-run (bulk_set_status_call now status ids) db h = IsSafe-bulk_set_status now status ids db h

IsSafe-run_all :
    (calls : List Call) (db : MemberDb)
    → IsSafe db.store.members
    → IsSafe (run_all calls db).store.members
unfolding run_all
IsSafe-run_all [] db h = h
IsSafe-run_all (c ∷ calls) db h = IsSafe-run_all calls (run c db) (IsSafe-run c db h)

-- Where ids are distinct and an administrator is active, one is active after whatever promotions, demotions,
-- removals and batches of removals and of changes of status follow, each accepted or refused.
pub admin_remains :
    (calls : List Call) (db : MemberDb)
    → Distinct (map member_key db.store.members)
    → 1 ≤ admin_count db.store.members
    → 1 ≤ admin_count (run_all calls db).store.members
admin_remains calls db distinct one =
    (IsSafe-run_all calls db (record { distinct = distinct; remains = one })).remains
