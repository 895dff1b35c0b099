-- ===== src/Allocations/Lifecycle.antt =====
-- The life of an allocation: pause and resume, the end by revocation, the reclaim lock.
use mathlib.Core.Option
use ai_api.Base.{
  ℕ, ◌≡◌, ◌≢◌, inl, inr, refl, ap, ◌∙◌, true, some, ok, List, Option-cases, key-get, text_eq, [],
  ◌∷◌, ◌++◌, arith, get, modify, get-modify_self, get-modify_ne, get-append_found, any, ◌==◌,
  ==_refl, text_eq_refl, Bool-cases, ==_iff,
}
use ai_api.Models.{
  Text, Instant, Allocation, AllocationStatus, AllocationOrigin, ReclaimLock, Member,
  GeneratedToken,
}
use ai_api.Allocations.{
  Store, allocation_id, audited, pause, resume, locks, lock_reclaim, revoke, issue, Request, Fresh,
  member_key, create_for, create, ensure_external_member,
}

abbrev set_status : AllocationStatus → Allocation → Allocation
set_status s a = record a { status = s }

status_after :
    (id : ℕ) (s : AllocationStatus) (rows : List Allocation) (a : Allocation)
    → get allocation_id id rows ≡ some a
    → get allocation_id id (modify allocation_id id (set_status s) rows) ≡ some (set_status s a)
status_after id s rows a h =
    get-modify_self allocation_id id (set_status s) rows (λ x. refl)
    ∙ ap (Option.map (set_status s)) h

-- An active allocation that is paused and resumed is the row that it was, with its quotas, and the
-- keys, the scopes and the reclaim locks are untouched.
pub resume-pause :
    (id : ℕ) (st : Store) (a : Allocation)
    → get allocation_id id st.allocations ≡ some a
    → a.status ≡ AllocationStatus.active
    → let st' = (resume id (pause id st).1).1 in
      (get allocation_id id st'.allocations ≡ some a)
      × (st'.credentials ≡ st.credentials)
      × (st'.links ≡ st.links)
      × (st'.reclaim_locks ≡ st.reclaim_locks)
unfolding pause resume audited
resume-pause id st a h active =
    let paused = status_after id AllocationStatus.paused st.allocations a h in
    let rows = modify allocation_id id (set_status AllocationStatus.paused) st.allocations in
    let resumed =
      status_after id AllocationStatus.active rows (set_status AllocationStatus.paused a) paused in
    ground (arith, h, active, paused, resumed)

-- Pausing and resuming leave every other allocation alone.
pub pause_others :
    (id j : ℕ) (st : Store)
    → id ≢ j
    → (get allocation_id j (pause id st).1.allocations ≡ get allocation_id j st.allocations)
      × (get allocation_id j (resume id st).1.allocations ≡ get allocation_id j st.allocations)
unfolding pause resume audited
pause_others id j st ne = (
  ground (
    arith,
    get-modify_ne allocation_id id j (set_status AllocationStatus.paused) st.allocations (λ x. refl)
        ne,
  ),
  ground (
    arith,
    get-modify_ne allocation_id id j (set_status AllocationStatus.active) st.allocations (λ x. refl)
        ne,
  ),
)

-- the operations that write allocations
pub data Op : Type 0 where
  pause_op resume_op : ℕ → Op
  revoke_op : Instant → ℕ → Op
  create_op : Text → Fresh → Instant → Request → Op

pub apply : Op → Store → Store
apply (pause_op id) st = (pause id st).1
apply (resume_op id) st = (resume id st).1
apply (revoke_op now id) st = (revoke now id st).1
apply (create_op name fresh now request) st = (create name fresh now request st).1

pub apply_all : List Op → Store → Store
apply_all [] st = st
apply_all (op ∷ ops) st = apply_all ops (apply op st)

-- the row of `j` is `a`
abbrev pub Holds : ℕ → Allocation → Store → Type 0
Holds j a st = get allocation_id j st.allocations ≡ some a

modify_other_status :
    (id j : ℕ) (f : Allocation → Allocation) (rows : List Allocation) (a : Allocation)
    → ((x : Allocation) → (f x).id ≡ x.id)
    → get allocation_id j rows ≡ some a
    → id ≢ j
    → get allocation_id j (modify allocation_id id f rows) ≡ some a
modify_other_status id j f rows a keeps h ne = get-modify_ne allocation_id id j f rows keeps ne ∙ h

create_for-Holds :
    (j : ℕ) (a : Allocation) (name : Text) (fresh : Fresh) (now : Instant) (request : Request)
    (m : Member) (st : Store)
    → Holds j a st
    → Holds j a (create_for name fresh now request m st).1
unfolding create_for issue
create_for-Holds j a name fresh now request m st h =
    get-append_found allocation_id j st.allocations _ a h

allocations-ensure_external_member :
    (id : ℕ) (subject : Text) (st : Store)
    → (ensure_external_member id subject st).1.allocations ≡ st.allocations
unfolding ensure_external_member
allocations-ensure_external_member id subject st = ground arith

module _ (j : ℕ) (a : Allocation) (st : Store) (h : Holds j a st)
    (final : a.status ≡ AllocationStatus.revoked) where
  pause-final : (id : ℕ) → Holds j a (pause id st).1
  unfolding pause audited
  pause-final id = elim (Bool-cases (id == j)) [
    | inl same ↦ let e : id ≡ j = (==_iff id j).0 same in rw e (ground arith)
    | inr other ↦ ground (
      arith,
      modify_other_status id j (set_status AllocationStatus.paused) st.allocations a (λ x. refl) h,
    )
  ]

  resume-final : (id : ℕ) → Holds j a (resume id st).1
  unfolding resume audited
  resume-final id = elim (Bool-cases (id == j)) [
    | inl same ↦ let e : id ≡ j = (==_iff id j).0 same in rw e (ground arith)
    | inr other ↦ ground (
      arith,
      modify_other_status id j (set_status AllocationStatus.active) st.allocations a (λ x. refl) h,
    )
  ]

  revoke-final : (now id : ℕ) → Holds j a (revoke now id st).1
  unfolding revoke lock_reclaim audited
  revoke-final now id = elim (Bool-cases (id == j)) [
    | inl same ↦ let e : id ≡ j = (==_iff id j).0 same in rw e (ground arith)
    | inr other ↦ ground (
      arith,
      modify_other_status id j
          (λ r. record r { status = AllocationStatus.revoked; revoked_at = some now })
          st.allocations a (λ x. refl) h,
    )
  ]

  create-final :
      (name : Text) (fresh : Fresh) (now : Instant) (request : Request)
      → Holds j a (create name fresh now request st).1
  unfolding create
  create-final name fresh now request =
      grind (arith, h, create_for-Holds, allocations-ensure_external_member)

-- Revocation is final: whatever sequence of pauses, resumptions, revocations and new allocations
-- follows, the row of a revoked allocation stays as it is.
pub revoked_is_final :
    (ops : List Op) (j : ℕ) (a : Allocation) (st : Store)
    → get allocation_id j st.allocations ≡ some a
    → a.status ≡ AllocationStatus.revoked
    → get allocation_id j (apply_all ops st).allocations ≡ some a
unfolding apply_all apply
revoked_is_final [] j a st h final = h
revoked_is_final (pause_op id ∷ ops) j a st h final =
    revoked_is_final ops j a (pause id st).1 (pause-final j a st h final id) final
revoked_is_final (resume_op id ∷ ops) j a st h final =
    revoked_is_final ops j a (resume id st).1 (resume-final j a st h final id) final
revoked_is_final (revoke_op now id ∷ ops) j a st h final =
    revoked_is_final ops j a (revoke now id st).1 (revoke-final j a st h final now id) final
revoked_is_final (create_op name fresh now request ∷ ops) j a st h final =
    revoked_is_final ops j a (create name fresh now request st).1
      (create-final j a st h final name fresh now request) final

any-append :
    (member : ℕ) (model : Text) (ls : List ReclaimLock)
    → any (locks member model) (ls ++ record { member_id = member; model_slug = model } ∷ []) ≡ true
any-append member model [] = ground (arith, ==_refl member, text_eq_refl model)
any-append member model (l ∷ ls) = ground (arith, any-append member model ls)

-- Revoking a self-service allocation ends it and locks its member out of claiming the model again.
-- A second revocation changes nothing, the first revocation's instant included.
pub revoke-locks :
    (now later id : ℕ) (st : Store) (a : Allocation)
    → get allocation_id id st.allocations ≡ some a
    → a.status ≢ AllocationStatus.revoked
    → a.origin ≡ AllocationOrigin.self_service
    → let st' = (revoke now id st).1 in
      (get allocation_id id st'.allocations
        ≡ some (record a { status = AllocationStatus.revoked; revoked_at = some now }))
      × (any (locks a.member_id a.resource_model) st'.reclaim_locks ≡ true)
      × ((revoke later id st').1 ≡ st')
unfolding revoke lock_reclaim audited
revoke-locks now later id st a h in_force own =
    let end =
      λ (r : Allocation). record r { status = AllocationStatus.revoked; revoked_at = some now } in
    let ended =
      get-modify_self allocation_id id end st.allocations (λ x. refl) ∙ ap (Option.map end) h in
    ground (arith, h, own, ended, any-append a.member_id a.resource_model st.reclaim_locks)

-- An allocation that is created for a member of the table is active, with the fresh id, the model and
-- the origin that were asked for, and is the table's last row. The locks are left alone.
pub create_known :
    (name : Text) (fresh : Fresh) (now : Instant) (request : Request) (st : Store) (id : ℕ)
    (a : Allocation) (t : GeneratedToken)
    → request.member_id ≡ some id
    → (create name fresh now request st).0 ≡ ok (a, t)
    → (a.id ≡ fresh.allocation)
      × (a.member_id ≡ id)
      × (a.resource_model ≡ request.resource_model)
      × (a.status ≡ AllocationStatus.active)
      × (a.origin ≡ request.origin)
      × ((create name fresh now request st).1.allocations ≡ st.allocations ++ a ∷ [])
      × ((create name fresh now request st).1.reclaim_locks ≡ st.reclaim_locks)
unfolding create create_for issue
create_known name fresh now request st id a t known h =
    elim (Bool-cases (text_eq request.resource_model [])) [
      | inl empty ↦ absurd (ground (arith, empty))
      | inr named ↦ elim (Option-cases (get member_key id st.members)) [
        | inl gone ↦ absurd (ground (arith, named, known, gone))
        | inr (m, found) ↦
            let owner = key-get member_key id st.members m found in
            ground (arith, named, known, found, owner)
      ]
    ]

-- what a revocation does to the table, and to the locks
pub revoke-allocations :
    (now id : ℕ) (st : Store) (a : Allocation)
    → get allocation_id id st.allocations ≡ some a
    → a.status ≢ AllocationStatus.revoked
    → (revoke now id st).1.allocations
      ≡ modify allocation_id id
          (λ r. record r { status = AllocationStatus.revoked; revoked_at = some now })
          st.allocations
unfolding revoke lock_reclaim audited
revoke-allocations now id st a h in_force = ground (arith, h)
