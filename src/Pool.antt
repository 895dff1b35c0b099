-- ===== src/Pool.antt =====
-- The pure half of src/ai_api/services/quota_pool.py: `compute_rebalance` and its helpers.
-- Allocation ids are ULIDs, compared for equality and in their lexicographic order: a ULID has a
-- fixed length, so its order is that of the number it spells, and an id is a number here.
pub mod Shares
pub mod Sums
pub mod TrueDivision
pub mod Conservation
pub mod Floor
mod Tests
use ai_api.Base.{
  ℕ, zero, suc, ◌+◌, ◌-◌, ◌*◌, ◌/◌, ◌≡◌, refl, Bool, List, [], ◌∷◌, map, ltb, ◌==◌, if◌then◌else◌,
  length, sum_by, ◌&&◌, ◌||◌,
}
use ai_api.Base.Int.{ℤ, pos, pos_part, ◌+ℤ◌, ◌-ℤ◌, ltb_ℤ, eqb_ℤ}
use ai_api.Pool.TrueDivision.{int_true_div}

pub record PoolMember : Type 0 where
  pub allocation_id : ℕ
  pub usage_last_month : ℕ

pub data Reason : Type 0 where
  ratio floor first_round : Reason

pub record RebalanceResult : Type 0 where
  pub allocation_id : ℕ
  pub new_quota : ℤ
  pub reason : Reason

pub data PoolError : Type 0 where
  conservation_error pool_disabled exhausted_by_reserved pool_idle : PoolError

pub data Result {ℓ} (A : Type ℓ) : Type ℓ where
  ok : A → Result A
  err : PoolError → Result A

-- Python's `max(range(N), key=…)`: the first index whose key is exceeded by no other. `best` is the
-- index of the largest member so far, `i` the index of the head of the list.
unfoldable pub max_from :
    (PoolMember → PoolMember → Bool) → ℕ → PoolMember → ℕ → List PoolMember → ℕ
max_from less best m i [] = best
max_from less best m i (x ∷ xs) =
    let better = less m x in
    max_from less (if better then i else best) (if better then x else m) (suc i) xs

unfoldable pub max_index : (PoolMember → PoolMember → Bool) → List PoolMember → ℕ
unfolding max_from
max_index less [] = 0
max_index less (m ∷ ms) = max_from less 0 m 1 ms

-- the order of the ids, and of the tuples (usage, id)
abbrev pub id_less : PoolMember → PoolMember → Bool
id_less a b = ltb a.allocation_id b.allocation_id

abbrev pub usage_less : PoolMember → PoolMember → Bool
usage_less a b =
    ltb a.usage_last_month b.usage_last_month
    || (a.usage_last_month == b.usage_last_month && ltb a.allocation_id b.allocation_id)

-- The first round: every member gets `each`, and the one at `target` the leftover too.
unfoldable pub spread : ℕ → ℕ → ℕ → ℕ → List PoolMember → List RebalanceResult
spread each leftover target i [] = []
spread each leftover target i (m ∷ ms) =
    record {
      allocation_id = m.allocation_id;
      new_quota = pos (each + (if i == target then leftover else 0));
      reason = first_round;
    }
    ∷ spread each leftover target (suc i) ms

-- one turn of the loop over the members: `int(bonus_pool * usage / total_usage)`
unfoldable pub share : ℕ → ℕ → PoolMember → ℕ
share bonus_pool total_usage m =
    if m.usage_last_month == 0
    then 0
    else int_true_div (bonus_pool * m.usage_last_month) total_usage

-- `shares[target] += leftover`
unfoldable pub add_at : ℕ → ℤ → List ℤ → List ℤ
add_at target leftover [] = []
add_at zero leftover (s ∷ shares) = (s +ℤ leftover) ∷ shares
add_at (suc target) leftover (s ∷ shares) = s ∷ add_at target leftover shares

unfoldable pub assemble : ℕ → List PoolMember → List ℤ → List RebalanceResult
assemble floor_per_member (m ∷ ms) (s ∷ shares) =
    record {
      allocation_id = m.allocation_id;
      new_quota = pos floor_per_member +ℤ s;
      reason = if m.usage_last_month == 0 then floor else ratio;
    }
    ∷ assemble floor_per_member ms shares
assemble floor_per_member _ _ = []

-- `sum(r.new_quota for r in results)`
unfoldable pub sum_quota : List RebalanceResult → ℤ
sum_quota [] = pos 0
sum_quota (r ∷ rs) = r.new_quota +ℤ sum_quota rs

pub sum_quota-nil : sum_quota [] ≡ pos 0
unfolding sum_quota
sum_quota-nil = refl

pub sum_quota-cons :
    (r : RebalanceResult) (rs : List RebalanceResult)
    → sum_quota (r ∷ rs) ≡ r.new_quota +ℤ sum_quota rs
unfolding sum_quota
sum_quota-cons r rs = refl

-- `_assert_conservation`, which passes the results on
unfoldable pub assert_conservation : List RebalanceResult → ℤ → ℕ → Result (List RebalanceResult)
assert_conservation results reserved_total total =
    if eqb_ℤ (sum_quota results +ℤ reserved_total) (pos total)
    then ok results
    else err conservation_error

unfoldable pub usage_sum : List PoolMember → ℕ
usage_sum = sum_by (λ m. m.usage_last_month)

unfoldable pub cold_start : ℕ → List PoolMember → List RebalanceResult
cold_start distributable pool =
    let each = distributable / length pool in
    spread each (distributable - each * length pool) (max_index id_less pool) 0 pool

unfoldable pub proportional : ℕ → ℕ → List PoolMember → List RebalanceResult
proportional distributable floor_per_member pool =
    let bonus_pool = distributable - floor_per_member * length pool in
    let shares = map (share bonus_pool (usage_sum pool)) pool in
    let leftover = pos bonus_pool -ℤ pos (sum_by (λ s. s) shares) in
    assemble floor_per_member pool (add_at (max_index usage_less pool) leftover (map pos shares))

-- Past the first test what is distributable is not negative, and is handed on as a number.
unfoldable pub compute_rebalance :
    (T floor_per_member : ℕ) (reserved_total : ℤ) → List PoolMember → Result (List RebalanceResult)
compute_rebalance T floor_per_member reserved_total [] = ok []
compute_rebalance T floor_per_member reserved_total (m ∷ ms) =
    let pool = m ∷ ms in
    let distributable = pos T -ℤ reserved_total in
    if ltb_ℤ distributable (pos (floor_per_member * length pool))
    then err exhausted_by_reserved
    else if usage_sum pool == 0
    then assert_conservation (cold_start (pos_part distributable) pool) reserved_total T
    else assert_conservation (proportional (pos_part distributable) floor_per_member pool)
        reserved_total T
