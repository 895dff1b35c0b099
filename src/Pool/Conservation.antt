-- ===== src/Pool/Conservation.antt =====
-- The sum that `compute_rebalance` hands out, whatever the division rounds to, and its errors.
use ai_api.Base.{
  ℕ, suc, ◌-◌, ◌*◌, ◌≡◌, ◌≢◌, refl, ◌∙◌, ◌⊎◌, ◌↔◌, inl, inr, true, List, [], ◌∷◌, map, arith, ◌==◌,
  if◌then◌else◌, length, length-map, Bool-cases, le→not_ltb, not_ltb→le,
}
use ai_api.Base.Int.{ℤ, pos, pos_part, ◌+ℤ◌, ◌-ℤ◌, ◌≤ℤ◌, ltb_ℤ, int_laws, neg_part-zero}
use ai_api.Pool.{
  PoolMember, RebalanceResult, PoolError, ok, err, conservation_error, exhausted_by_reserved,
  spread, share, assemble, sum_quota, assert_conservation, usage_sum, cold_start, proportional,
  compute_rebalance,
}
use ai_api.Pool.Sums.{length-add_at, sum_quota-cold_start, sum_quota-proportional}

assert-ok :
    (results : List RebalanceResult) (reserved_total : ℤ) (T : ℕ)
    → pos 0 ≤ℤ pos T -ℤ reserved_total
    → sum_quota results ≡ pos (pos_part (pos T -ℤ reserved_total))
    → assert_conservation results reserved_total T ≡ ok results
unfolding assert_conservation
assert-ok results reserved_total T h e = rw e (unfold ◌+ℤ◌ ◌-ℤ◌ in ground arith)

-- the floors fit beside the reserved quotas
abbrev pub Fits : ℕ → ℕ → ℤ → List PoolMember → Type 0
Fits T f reserved_total pool = pos (f * length pool) ≤ℤ pos T -ℤ reserved_total

abbrev pub rebalanced : ℕ → ℕ → ℤ → List PoolMember → List RebalanceResult
rebalanced T f reserved_total pool =
    let d = pos_part (pos T -ℤ reserved_total) in
    if usage_sum pool == 0 then cold_start d pool else proportional d f pool

-- What a rebalance of a non-empty pool returns, with the assertion discharged.
pub compute_rebalance_lem :
    (T f : ℕ) (reserved_total : ℤ) (m : PoolMember) (ms : List PoolMember)
    → Fits T f reserved_total (m ∷ ms)
    → compute_rebalance T f reserved_total (m ∷ ms) ≡ ok (rebalanced T f reserved_total (m ∷ ms))
unfolding compute_rebalance
compute_rebalance_lem T f r m ms h =
    let d = pos_part (pos T -ℤ r) in
    let pool = m ∷ ms in
    rw (le→not_ltb _ _ h) (
      ground (
        arith,
        assert-ok (cold_start d pool) r T (omega arith) (sum_quota-cold_start d m ms),
        assert-ok (proportional d f pool) r T (omega arith)
            (sum_quota-proportional d f m ms (omega arith)),
      ))

ids-spread :
    (each leftover target i : ℕ) (ms : List PoolMember)
    → map (λ r. r.allocation_id) (spread each leftover target i ms) ≡ map (λ m. m.allocation_id) ms
unfolding spread
ids-spread each leftover target i [] = refl
ids-spread each leftover target i (m ∷ ms) = rw (ids-spread each leftover target (suc i) ms)

ids-assemble :
    (f : ℕ) (ms : List PoolMember) (shares : List ℤ)
    → length shares ≡ length ms
    → map (λ r. r.allocation_id) (assemble f ms shares) ≡ map (λ m. m.allocation_id) ms
unfolding assemble
ids-assemble f [] shares h = refl
ids-assemble f (m ∷ ms) [] h = absurd (omega arith)
ids-assemble f (m ∷ ms) (s ∷ shares) h = rw (ids-assemble f ms shares (omega arith))

ids-proportional :
    (distributable f : ℕ) (ms : List PoolMember)
    → map (λ r. r.allocation_id) (proportional distributable f ms) ≡ map (λ m. m.allocation_id) ms
unfolding proportional
ids-proportional d f ms =
    let bonus_pool = d - f * length ms in
    let shares = map (share bonus_pool (usage_sum ms)) ms in
    ids-assemble f ms _ (
      length-add_at _ _ (map pos shares)
      ∙ length-map pos shares
      ∙ length-map (share bonus_pool (usage_sum ms)) ms)

back_to_total :
    (T : ℕ) (r : ℤ) (k : ℕ) → pos k ≤ℤ pos T -ℤ r → pos (pos_part (pos T -ℤ r)) +ℤ r ≡ pos T
back_to_total T r k h = omega (int_laws, neg_part-zero k (pos T -ℤ r) h)

-- A pool whose floors and reserved quotas fit into the total T is rebalanced: the new quotas, one
-- for each member in the order of the pool, and the reserved ones add up to T, with no remainder.
pub rebalance_conserves :
    (T f : ℕ) (reserved_total : ℤ) (m : PoolMember) (ms : List PoolMember)
    → pos (f * length (m ∷ ms)) ≤ℤ pos T -ℤ reserved_total
    → (results : List RebalanceResult) × (compute_rebalance T f reserved_total (m ∷ ms)
        ≡ ok results)
      × (sum_quota results +ℤ reserved_total ≡ pos T)
      × (map (λ r. r.allocation_id) results ≡ map (λ p. p.allocation_id) (m ∷ ms))
rebalance_conserves T f r m ms h =
    let d = pos_part (pos T -ℤ r) in
    let pool = m ∷ ms in
    (
      rebalanced T f r pool,
      compute_rebalance_lem T f r m ms h,
      elim (Bool-cases (usage_sum pool == 0)) [
        | inl idle ↦ rw (idle, sum_quota-cold_start d m ms) (back_to_total T r _ h)
        | inr used ↦
            rw (used, sum_quota-proportional d f m ms (omega arith)) (back_to_total T r _ h)
      ],
      elim (Bool-cases (usage_sum pool == 0)) [
        | inl idle ↦ rw idle (unfold cold_start in ids-spread _ _ _ 0 pool)
        | inr used ↦ rw used (ids-proportional d f pool)
      ],
    )

pub empty_pool : (T f : ℕ) (r : ℤ) → compute_rebalance T f r [] ≡ ok []
unfolding compute_rebalance
empty_pool T f r = refl

pub exhausts :
    (T f : ℕ) (r : ℤ) (m : PoolMember) (ms : List PoolMember)
    → ltb_ℤ (pos T -ℤ r) (pos (f * length (m ∷ ms))) ≡ true
    → compute_rebalance T f r (m ∷ ms) ≡ err exhausted_by_reserved
unfolding compute_rebalance
exhausts T f r m ms h = rw h

-- A rebalance of any pool raises `PoolExhaustedByReservedError` exactly when the pool is not empty
-- and its floors exceed what T leaves beside the reserved quotas; it raises no other error.
pub rebalance_errors :
    (T f : ℕ) (reserved_total : ℤ) (pool : List PoolMember) (e : PoolError)
    → (compute_rebalance T f reserved_total pool ≡ err e) ↔ (
        (e ≡ exhausted_by_reserved)
        × (pool ≢ [])
        × ¬ (pos (f * length pool) ≤ℤ pos T -ℤ reserved_total))
rebalance_errors T f r [] e = (λ h. cc (empty_pool T f r), λ h. absurd (h.1 refl))
rebalance_errors T f r (m ∷ ms) e =
    elim (Bool-cases (ltb_ℤ (pos T -ℤ r) (pos (f * length (m ∷ ms))))) [
      | inl short ↦ (
        (λ h. (cc (exhausts T f r m ms short), (λ p. cc), (λ fits. cc (le→not_ltb _ _ fits)))),
        (λ h. rw h.0 (exhausts T f r m ms short)),
      )
      | inr enough ↦ (
        (λ h. cc (compute_rebalance_lem T f r m ms (not_ltb→le _ _ enough))),
        (λ h. absurd (h.2 (not_ltb→le _ _ enough))),
      )
    ]

-- What is known of the results of a rebalance that returns.
pub rebalance_ok :
    (T f : ℕ) (r : ℤ) (m : PoolMember) (ms : List PoolMember) (results : List RebalanceResult)
    → compute_rebalance T f r (m ∷ ms) ≡ ok results
    → (sum_quota results +ℤ r ≡ pos T)
      × (map (λ x. x.allocation_id) results ≡ map (λ p. p.allocation_id) (m ∷ ms))
rebalance_ok T f r m ms results h =
    elim (Bool-cases (ltb_ℤ (pos T -ℤ r) (pos (f * length (m ∷ ms))))) [
      | inl short ↦ cc (exhausts T f r m ms short)
      | inr enough ↦
          let (found, e, total, ids) = rebalance_conserves T f r m ms (not_ltb→le _ _ enough) in
          let same : results ≡ found = cc (h, e) in (rw same total, rw same ids)
    ]

pub assert_conservation-cases :
    (results : List RebalanceResult) (r : ℤ) (T : ℕ)
    → (assert_conservation results r T ≡ ok results)
      ⊎ (assert_conservation results r T ≡ err conservation_error)
unfolding assert_conservation
assert_conservation-cases results r T = ground arith
