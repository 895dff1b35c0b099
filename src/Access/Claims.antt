-- ===== src/Access/Claims.antt =====
-- The claim of an allocation: once at a time, and not again after a revocation.
use ai_api.Base.{
  ◌≡◌, ◌≢◌, inl, inr, refl, sym, ap, ◌∙◌, Bool, true, false, none, some, List, [], ◌∷◌, ◌++◌, arith,
  any, Try-cases, ok, raise, get, modify, get-append_new, ==_refl, ◌||◌, text_eq_refl, Option-cases,
}
use ai_api.Models.{
  Text, Instant, Allocation, AllocationStatus, AllocationOrigin, Member, member_is_active,
  GeneratedToken,
}
use ai_api.Allocations.{Store, allocation_id, revoke, Fresh, create}
use ai_api.Allocations.Lifecycle.{create_known, revoke-allocations, revoke-locks}
use ai_api.Access.{
  ClaimReason, already_claimed, reclaim_locked, evaluate_claim_eligibility, claimed_by,
  has_active_self_alloc, is_locked, get_model, eligibility, check, claim_error, request_for,
  audited_claim, claim_model, claim,
}
use ai_api.Access.ModelAccess.{ModelCatalog, AccessDb, get_member_tags, active_providers}

-- What a claim leaves: the store with the new allocation as its last row, and the rest as it was.
abbrev Claimed : Fresh → Member → Text → AccessDb → Allocation → AccessDb → Type 0
Claimed fresh member slug db a after =
    (model : ModelCatalog) × (st : Store) × (get_model slug db ≡ some model)
    × (eligibility member slug model db ≡ none)
    × (after ≡ record db { store = st })
    × (a.id ≡ fresh.allocation)
    × (a.member_id ≡ member.id)
    × (a.resource_model ≡ slug)
    × (a.status ≡ AllocationStatus.active)
    × (a.origin ≡ AllocationOrigin.self_service)
    × (st.allocations ≡ db.store.allocations ++ a ∷ [])
    × (st.reclaim_locks ≡ db.store.reclaim_locks)

claim_model-Claimed :
    (name : Text) (fresh : Fresh) (now : Instant) (member : Member) (slug : Text)
    (model : ModelCatalog) (db : AccessDb) (a : Allocation) (t : GeneratedToken)
    → get_model slug db ≡ some model
    → eligibility member slug model db ≡ none
    → (claim_model name fresh now member slug model db).0 ≡ ok (a, t)
    → Claimed fresh member slug db a (claim_model name fresh now member slug model db).1
unfolding claim_model audited_claim
claim_model-Claimed name fresh now member slug model db a t found fits h =
    elim (Try-cases (create name fresh now (request_for member slug model) db.store).0) [
      | inr (x, e) ↦ absurd (ground (arith, e))
      | inl ((b, u), e) ↦
          let same : (b ≡ a) × (u ≡ t) = ground (arith, e, h) in
          let made = e ∙ ap (λ q. ok (q, u)) same.0 in
          let (id, owner, kind, status, origin, rows, locked) =
            create_known name fresh now (request_for member slug model) db.store member.id a u refl
              made in
          let st = (create name fresh now (request_for member slug model) db.store).1 in
          (
            model,
            record st { audit_log = (audited_claim (record db { store = st })).store.audit_log },
            found,
            fits,
            rw (e, claim_model, audited_claim) refl,
            id,
            owner,
            kind,
            status,
            origin,
            rows,
            locked,
          )
    ]

claim-Claimed :
    (name : Text) (fresh : Fresh) (now : Instant) (member : Member) (slug : Text) (db : AccessDb)
    (a : Allocation) (t : GeneratedToken)
    → (claim name fresh now member slug db).0 ≡ ok (a, t)
    → Claimed fresh member slug db a (claim name fresh now member slug db).1
unfolding claim check
claim-Claimed name fresh now member slug db a t h = elim (Option-cases (get_model slug db)) [
  | inl gone ↦ absurd (ground (arith, gone))
  | inr (model, found) ↦ elim (Option-cases (eligibility member slug model db)) [
    | inr (r, e) ↦ absurd (ground (arith, found, e))
    | inl fits ↦
        let same : claim name fresh now member slug db
            ≡ claim_model name fresh now member slug model db =
          ground (arith, found, fits) in
        rw same (
          claim_model-Claimed name fresh now member slug model db a t found fits
            (ap (λ q. q.0) (sym same) ∙ h))
  ]
]

refused :
    (name : Text) (fresh : Fresh) (now : Instant) (member : Member) (slug : Text) (db : AccessDb)
    (model : ModelCatalog) (r : ClaimReason)
    → get_model slug db ≡ some model
    → eligibility member slug model db ≡ some r
    → (claim name fresh now member slug db).0 ≡ raise (claim_error r)
unfolding claim check
refused name fresh now member slug db model r found e = ground (arith, found, e)

-- Who was eligible and has claimed is refused as one who has; who may not claim again, as locked out.
eligible_then :
    (active claimed locked : Bool) (model : ModelCatalog) (tags providers : List Text)
    → evaluate_claim_eligibility active model tags providers claimed locked ≡ none
    → (claimed ≡ false)
      × (evaluate_claim_eligibility active model tags providers true locked ≡ some already_claimed)
      × (evaluate_claim_eligibility active model tags providers false true ≡ some reclaim_locked)
unfolding evaluate_claim_eligibility
eligible_then active claimed locked model tags providers h = ground arith

any-append :
    (p : Allocation → Bool) (rows : List Allocation) (a : Allocation)
    → any p (rows ++ a ∷ []) ≡ (any p rows || p a)
any-append p [] a = ground arith
any-append p (b ∷ rows) a = ground (arith, any-append p rows a)

any-modify_last :
    (p : Allocation → Bool) (f : Allocation → Allocation) (rows : List Allocation) (a : Allocation)
    → get allocation_id a.id rows ≡ none
    → p (f a) ≡ false
    → any p (modify allocation_id a.id f (rows ++ a ∷ [])) ≡ any p rows
any-modify_last p f [] a h e = ground (arith, e, ==_refl a.id)
any-modify_last p f (b ∷ rows) a h e = ground (arith, any-modify_last p f rows a, e)

-- After a claim has succeeded, a second claim of the model by the member is refused as already
-- claimed; and once the allocation has been revoked, a claim is refused as locked out. The id of the
-- new allocation is fresh.
pub claim_once :
    (name : Text) (fresh fresh' : Fresh) (now later again : Instant) (member : Member) (slug : Text)
    (db : AccessDb) (a : Allocation) (t : GeneratedToken)
    → get allocation_id fresh.allocation db.store.allocations ≡ none
    → (claim name fresh now member slug db).0 ≡ ok (a, t)
    → let db' = (claim name fresh now member slug db).1 in
      let ended = record db' { store = (revoke later a.id db'.store).1 } in
      ((claim name fresh' again member slug db').0 ≡ raise (claim_error already_claimed))
      × ((claim name fresh' again member slug ended).0 ≡ raise (claim_error reclaim_locked))
unfolding eligibility has_active_self_alloc is_locked get_member_tags active_providers
claim_once name fresh fresh' now later again member slug db a t unused h =
    let (model, st, found, fits, after, id, owner, kind, status, origin, rows, locked) =
      claim-Claimed name fresh now member slug db a t h in
    let (none_yet, taken, barred) =
      eligible_then (member_is_active member.status) (has_active_self_alloc member.id slug db.store)
        (is_locked member.id slug db.store) model (get_member_tags member.id db)
        (active_providers db) fits in
    let own : claimed_by member.id slug a ≡ true =
      ground (arith, owner, kind, status, origin, ==_refl member.id, text_eq_refl slug) in
    let held : has_active_self_alloc member.id slug st ≡ true =
      rw rows
        (any-append (claimed_by member.id slug) db.store.allocations a ∙ ground (arith, own)) in
    let same_locks : is_locked member.id slug st ≡ is_locked member.id slug db.store =
      rw locked refl in
    let fresh_id : get allocation_id a.id db.store.allocations ≡ none = rw id unused in
    let here : get allocation_id a.id st.allocations ≡ some a =
      rw rows (get-append_new allocation_id a.id db.store.allocations a fresh_id refl) in
    let in_force : a.status ≢ AllocationStatus.revoked = λ e. cc in
    let ended = (revoke later a.id st).1 in
    let table = revoke-allocations later a.id st a here in_force in
    let free : has_active_self_alloc member.id slug ended ≡ false =
      rw (table, rows)
        (any-modify_last (claimed_by member.id slug)
            (λ r. record r { status = AllocationStatus.revoked; revoked_at = some later })
            db.store.allocations a fresh_id (ground arith)
          ∙ none_yet) in
    let barred_now : is_locked member.id slug ended ≡ true =
      let barring = (revoke-locks later later a.id st a here in_force origin).1 in
      rw (owner, kind) at barring in
    rw after (
      refused name fresh' again member slug (record db { store = st }) model already_claimed found
          (rw (held, same_locks) taken),
      refused name fresh' again member slug (record db { store = ended }) model reclaim_locked found
          (rw (free, barred_now) barred),
    )
