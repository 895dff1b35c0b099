-- ===== src/Rebalance/Sums.antt =====
-- What the UPDATEs of a rebalance do to the sums of the quotas.
use ai_api.Base.{
  ℕ, ◌+◌, ◌≤◌, ◌≡◌, refl, sym, ap, ◌∙◌, inl, inr, Bool, true, false, not, ◌&&◌, ◌||◌, List, [], ◌∷◌,
  map, arith, ◌==◌, if◌then◌else◌, filter, Bool-cases,
}
use ai_api.Base.Int.{
  ℤ, pos, ◌+ℤ◌, int_laws, zero_+ℤ, +ℤ_zero, +ℤ_left_comm, +ℤ_assoc, +ℤ_interchange,
}
use ai_api.Models.{Allocation, is_active}
use ai_api.Pool.{RebalanceResult, sum_quota, sum_quota-nil, sum_quota-cons}
use ai_api.Rebalance.{update_one, update_all}
use ai_api.Rebalance.Reads.{
  in_pool, is_reserved, quota_or_zero, quota_sum, insert_by_id, order_by_id,
}

abbrev one_if : Bool → ℕ
one_if b = if b then 1 else 0

-- how often an id stands in a list of ids
abbrev pub count : ℕ → List ℕ → ℕ
count i [] = 0
count i (j ∷ js) = one_if (j == i) + count i js

-- the rows of the pool that have an id
abbrev pub occurrences : ℕ → List Allocation → ℕ
occurrences i [] = 0
occurrences i (a ∷ rows) = one_if (a.id == i && in_pool a) + occurrences i rows

abbrev contains : ℕ → List ℕ → Bool
contains i [] = false
contains i (j ∷ js) = j == i || contains i js

abbrev ids_of : List RebalanceResult → List ℕ
ids_of = map (λ r. r.allocation_id)

-- the quotas of the pool's rows whose ids are not listed
rest : List ℕ → List Allocation → ℤ
rest ids [] = pos 0
rest ids (a ∷ rows) =
    (if in_pool a && not (contains a.id ids) then quota_or_zero a else pos 0) +ℤ rest ids rows

contains-count : (i : ℕ) (ids : List ℕ) → count i ids ≡ 0 → contains i ids ≡ false
contains-count i [] h = refl
contains-count i (j ∷ js) h = ground (arith, contains-count i js)

count-contains : (i : ℕ) (ids : List ℕ) → 1 ≤ count i ids → contains i ids ≡ true
count-contains i [] h = absurd (omega arith)
count-contains i (j ∷ js) h = ground (arith, count-contains i js)

occurrences-update_one :
    (i : ℕ) (r : RebalanceResult) (rows : List Allocation)
    → occurrences i (update_one r rows) ≡ occurrences i rows
unfolding update_one
occurrences-update_one i r [] = refl
occurrences-update_one i r (a ∷ rows) = ground (arith, occurrences-update_one i r rows)

-- A result whose id no row of the pool has changes nothing, and one that a single row has replaces
-- the quota of that row.
rest-update_none :
    (r : RebalanceResult) (ids : List ℕ) (rows : List Allocation)
    → occurrences r.allocation_id rows ≡ 0
    → rest ids (update_one r rows) ≡ rest (r.allocation_id ∷ ids) rows
unfolding rest update_one
rest-update_none r ids [] h = refl
rest-update_none r ids (a ∷ rows) h = ground (arith, rest-update_none r ids rows)

rest-update_one :
    (r : RebalanceResult) (ids : List ℕ) (rows : List Allocation)
    → contains r.allocation_id ids ≡ false
    → occurrences r.allocation_id rows ≡ 1
    → rest ids (update_one r rows) ≡ r.new_quota +ℤ rest (r.allocation_id ∷ ids) rows
unfolding rest update_one
rest-update_one r ids [] new h = absurd (omega arith)
rest-update_one r ids (a ∷ rows) new h =
    let tail = rest (r.allocation_id ∷ ids) rows in
    elim (Bool-cases (a.id == r.allocation_id && in_pool a)) [
      | inl hit ↦ ground (arith, rest-update_none r ids rows, zero_+ℤ tail)
      | inr miss ↦ ground (
        arith,
        rest-update_one r ids rows new,
        +ℤ_left_comm (quota_or_zero a) r.new_quota tail,
        +ℤ_left_comm (pos 0) r.new_quota tail,
      )
    ]

-- The UPDATEs of results with distinct ids, each of one row of the pool.
rest-update_all :
    (rs : List RebalanceResult) (rows : List Allocation)
    → ((i : ℕ) → count i (ids_of rs) ≤ 1)
    → ((i : ℕ) → count i (ids_of rs) ≤ occurrences i rows)
    → ((i : ℕ) → occurrences i rows ≤ 1)
    → rest [] (update_all rs rows) ≡ sum_quota rs +ℤ rest (ids_of rs) rows
unfolding update_all
rest-update_all [] rows once found single = rw sum_quota-nil (sym (zero_+ℤ (rest [] rows)))
rest-update_all (r ∷ rs) rows once found single =
    let i = r.allocation_id in
    let same = occurrences-update_one in
    let later =
      rest-update_all rs (update_one r rows) (λ j. omega (arith, once j))
        (λ j. rw same (omega (arith, found j))) (λ j. rw same (single j)) in
    later
    ∙ ap (λ (t : ℤ). sum_quota rs +ℤ t)
        (rest-update_one r (ids_of rs) rows (contains-count i (ids_of rs) (ground (arith, once i)))
          (ground (arith, found i, single i)))
    ∙ +ℤ_left_comm (sum_quota rs) r.new_quota (rest (i ∷ ids_of rs) rows)
    ∙ sym (+ℤ_assoc r.new_quota (sum_quota rs) (rest (i ∷ ids_of rs) rows))
    ∙ ap (λ (t : ℤ). t +ℤ rest (i ∷ ids_of rs) rows) (sym (sum_quota-cons r rs))

rest-covered :
    (ids : List ℕ) (rows : List Allocation)
    → ((i : ℕ) → occurrences i rows ≤ count i ids)
    → rest ids rows ≡ pos 0
unfolding rest
rest-covered ids [] h = refl
rest-covered ids (a ∷ rows) h = ground (
  arith,
  rest-covered ids rows (λ i. omega (arith, h i)),
  count-contains a.id ids,
  h a.id,
  zero_+ℤ (pos 0),
)

rest-nil : (rows : List Allocation) → rest [] rows ≡ quota_sum in_pool rows
unfolding rest quota_sum
rest-nil [] = refl
rest-nil (a ∷ rows) = ground (arith, rest-nil rows)

-- The rows of the pool are updated to exactly the computed quotas.
pub quota_sum-update_all :
    (rs : List RebalanceResult) (rows : List Allocation)
    → ((i : ℕ) → count i (ids_of rs) ≡ occurrences i rows)
    → ((i : ℕ) → occurrences i rows ≤ 1)
    → quota_sum in_pool (update_all rs rows) ≡ sum_quota rs
quota_sum-update_all rs rows same single =
    sym (rest-nil (update_all rs rows))
    ∙ rest-update_all rs rows (λ i. omega (arith, same i, single i)) (λ i. omega (arith, same i))
        single
    ∙ ap (λ (t : ℤ). sum_quota rs +ℤ t) (rest-covered (ids_of rs) rows (λ i. omega (arith, same i)))
    ∙ omega int_laws

reserved-update_one :
    (r : RebalanceResult) (rows : List Allocation)
    → quota_sum is_reserved (update_one r rows) ≡ quota_sum is_reserved rows
unfolding quota_sum update_one
reserved-update_one r [] = refl
reserved-update_one r (a ∷ rows) = ground (arith, reserved-update_one r rows)

-- The reserved quotas stay what they were.
pub reserved-update_all :
    (rs : List RebalanceResult) (rows : List Allocation)
    → quota_sum is_reserved (update_all rs rows) ≡ quota_sum is_reserved rows
unfolding update_all
reserved-update_all [] rows = refl
reserved-update_all (r ∷ rs) rows =
    reserved-update_all rs (update_one r rows) ∙ reserved-update_one r rows

-- Every active row is reserved or in the pool, and never both.
pub active_sum :
    (rows : List Allocation)
    → quota_sum (λ a. is_active a.status) rows
      ≡ quota_sum in_pool rows +ℤ quota_sum is_reserved rows
unfolding quota_sum
active_sum [] = omega int_laws
active_sum (a ∷ rows) =
    let part = λ (b : Bool). if b then quota_or_zero a else pos 0 in
    ap (λ (t : ℤ). part (is_active a.status) +ℤ t) (active_sum rows)
    ∙ ap (λ (t : ℤ). t +ℤ (quota_sum in_pool rows +ℤ quota_sum is_reserved rows)) (head a)
    ∙ +ℤ_interchange (part (in_pool a)) (part (is_reserved a)) (quota_sum in_pool rows)
        (quota_sum is_reserved rows)
  where
    head :
        (b : Allocation)
        → (if is_active b.status then quota_or_zero b else pos 0)
          ≡ (if in_pool b then quota_or_zero b else pos 0)
            +ℤ (if is_reserved b then quota_or_zero b else pos 0)
    head b = ground (arith, zero_+ℤ (quota_or_zero b), +ℤ_zero (quota_or_zero b), zero_+ℤ (pos 0))

count-insert_by_id :
    (i : ℕ) (a : Allocation) (rows : List Allocation)
    → count i (map (λ b. b.id) (insert_by_id a rows))
      ≡ one_if (a.id == i) + count i (map (λ b. b.id) rows)
unfolding insert_by_id
count-insert_by_id i a [] = refl
count-insert_by_id i a (b ∷ rows) = ground (arith, count-insert_by_id i a rows)

-- The ids of the pool, in order, are those of its rows.
pub count-order_by_id :
    (i : ℕ) (rows : List Allocation)
    → count i (map (λ b. b.id) (order_by_id (filter in_pool rows))) ≡ occurrences i rows
unfolding order_by_id
count-order_by_id i [] = refl
count-order_by_id i (a ∷ rows) =
    ground
      (arith, count-order_by_id i rows, count-insert_by_id i a (order_by_id (filter in_pool rows)))
