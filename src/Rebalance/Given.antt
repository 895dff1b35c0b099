-- ===== src/Rebalance/Given.antt =====
-- -- The UPDATEs of a run as one map over the rows, and the log beside them.
use ai_api.Base.{
  ℕ, ◌≡◌, refl, sym, ◌∙◌, inl, inr, Option, some, List, [], ◌∷◌, map, arith, if◌then◌else◌, ◌==◌,
  Bool-cases,
}
use ai_api.Base.Int.{ℤ}
use ai_api.Models.{Allocation}
use ai_api.Pool.{PoolMember, RebalanceResult}
use ai_api.Rebalance.{update_all, update_one, details_of}
use ai_api.Rebalance.Reads.{Detail, in_pool}

-- the quota that the results give an allocation, and its own where they name it nowhere
abbrev pub quota_given : List RebalanceResult → ℕ → Option ℤ → Option ℤ
quota_given [] id quota = quota
quota_given (r ∷ rs) id quota =
    quota_given rs id (if id == r.allocation_id then some r.new_quota else quota)

-- a row of the pool with the quota that the results give it, any other row as it is
abbrev pub given : List RebalanceResult → Allocation → Allocation
given results a =
    if in_pool a
    then record a { quota_tokens_per_month = quota_given results a.id a.quota_tokens_per_month }
    else a

pub given_none : (rows : List Allocation) → map (given []) rows ≡ rows
given_none [] = refl
given_none (a ∷ rows) = ground (arith, given_none rows)

given-update_one :
    (r : RebalanceResult) (rs : List RebalanceResult) (rows : List Allocation)
    → map (given rs) (update_one r rows) ≡ map (given (r ∷ rs)) rows
unfolding update_one
given-update_one r rs [] = refl
given-update_one r rs (a ∷ rows) = elim (Bool-cases (in_pool a)) [
  | inl pooled ↦ ground (arith, pooled, given-update_one r rs rows)
  | inr other ↦ ground (arith, other, given-update_one r rs rows)
]

-- the UPDATEs, one for each result, as one map over the rows
pub update_all-given :
    (results : List RebalanceResult) (rows : List Allocation)
    → update_all results rows ≡ map (given results) rows
unfolding update_all
update_all-given [] rows = sym (given_none rows)
update_all-given (r ∷ rs) rows =
    update_all-given rs (update_one r rows) ∙ given-update_one r rs rows

-- an allocation's id with its new quota, in the log and in a result
abbrev pub noted : Detail → ℕ × ℤ
noted d = (d.id, d.after)

abbrev pub assigned : RebalanceResult → ℕ × ℤ
assigned r = (r.allocation_id, r.new_quota)

pub details-new_quota :
    (rows : List Allocation) (pool : List PoolMember) (results : List RebalanceResult)
    → map (λ r. r.allocation_id) results ≡ map (λ m. m.allocation_id) pool
    → map noted (details_of rows pool results) ≡ map assigned results
unfolding details_of
details-new_quota rows [] [] h = refl
details-new_quota rows [] (r ∷ rs) h = cc
details-new_quota rows (m ∷ ms) [] h = cc
details-new_quota rows (m ∷ ms) (r ∷ rs) h = let rest = details-new_quota rows ms rs (cc) in cc
