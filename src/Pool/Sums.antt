-- ===== src/Pool/Sums.antt =====
-- The sums of the quotas that the parts of `compute_rebalance` hand out.
use native.Mathlib.Nat.{div-add-mod'}
use ai_api.Base.{
  ℕ, zero, suc, ◌+◌, ◌-◌, ◌*◌, ◌/◌, ◌≤◌, ◌<◌, ◌≡◌, refl, ap, ◌∙◌, Bool, List, [], ◌∷◌, map, arith,
  ltb, if◌then◌else◌, length, sum_by, length-map,
}
use ai_api.Base.Int.{ℤ, pos, ◌+ℤ◌, ◌-ℤ◌, int_laws}
use ai_api.Pool.{
  PoolMember, max_from, max_index, id_less, usage_less, spread, share, add_at, assemble, sum_quota,
  usage_sum, cold_start, proportional,
}

max_from-lt :
    (less : PoolMember → PoolMember → Bool) (best : ℕ) (m : PoolMember) (i : ℕ)
    (xs : List PoolMember)
    → best < i
    → max_from less best m i xs < i + length xs
unfolding max_from
max_from-lt less best m i [] h = omega arith
max_from-lt less best m i (x ∷ xs) h =
    let rest =
      max_from-lt less (if less m x then i else best) (if less m x then x else m) (suc i) xs in
    omega (arith, rest (ground arith))

-- The index of the largest member is in range.
max_index-lt :
    (less : PoolMember → PoolMember → Bool) (m : PoolMember) (ms : List PoolMember)
    → max_index less (m ∷ ms) < length (m ∷ ms)
unfolding max_index
max_index-lt less m ms = omega (arith, max_from-lt less 0 m 1 ms (omega arith))

-- the part of the leftover that the members from index `i` on receive
abbrev received : ℕ → ℕ → ℕ → ℕ → ℕ
received leftover target i n =
    if ltb target i then 0 else if ltb target (i + n) then leftover else 0

sum_quota-spread :
    (each leftover target i : ℕ) (ms : List PoolMember)
    → sum_quota (spread each leftover target i ms)
      ≡ pos (each * length ms + received leftover target i (length ms))
unfolding sum_quota spread ◌+ℤ◌
sum_quota-spread each leftover target i [] = ground arith
sum_quota-spread each leftover target i (m ∷ ms) =
    rw (sum_quota-spread each leftover target (suc i) ms) (ground arith)

all_received : (leftover target n : ℕ) → target < n → received leftover target 0 n ≡ leftover
all_received leftover target n h = ground arith

abbrev sum_ℤ : List ℤ → ℤ
sum_ℤ [] = pos 0
sum_ℤ (s ∷ shares) = s +ℤ sum_ℤ shares

sum_ℤ-pos : (shares : List ℕ) → sum_ℤ (map pos shares) ≡ pos (sum_by (λ s. s) shares)
unfolding ◌+ℤ◌
sum_ℤ-pos [] = refl
sum_ℤ-pos (s ∷ shares) = rw (sum_ℤ-pos shares) (ground arith)

sum_ℤ-add_at :
    (target : ℕ) (leftover : ℤ) (shares : List ℤ)
    → target < length shares
    → sum_ℤ (add_at target leftover shares) ≡ sum_ℤ shares +ℤ leftover
unfolding add_at
sum_ℤ-add_at target leftover [] h = absurd (omega arith)
sum_ℤ-add_at zero leftover (s ∷ shares) h = omega int_laws
sum_ℤ-add_at (suc target) leftover (s ∷ shares) h =
    rw (sum_ℤ-add_at target leftover shares (omega arith)) (omega int_laws)

pub length-add_at :
    (target : ℕ) (leftover : ℤ) (shares : List ℤ)
    → length (add_at target leftover shares) ≡ length shares
unfolding add_at
length-add_at target leftover [] = refl
length-add_at zero leftover (s ∷ shares) = refl
length-add_at (suc target) leftover (s ∷ shares) = ap suc (length-add_at target leftover shares)

sum_quota-assemble :
    (floor_per_member : ℕ) (ms : List PoolMember) (shares : List ℤ)
    → length shares ≡ length ms
    → sum_quota (assemble floor_per_member ms shares)
      ≡ pos (floor_per_member * length ms) +ℤ sum_ℤ shares
unfolding sum_quota assemble
sum_quota-assemble f [] [] h = omega int_laws
sum_quota-assemble f [] (s ∷ shares) h = absurd (omega arith)
sum_quota-assemble f (m ∷ ms) [] h = absurd (omega arith)
sum_quota-assemble f (m ∷ ms) (s ∷ shares) h =
    rw (sum_quota-assemble f ms shares (omega arith)) (omega int_laws)

-- The first round hands out all that is distributable.
pub sum_quota-cold_start :
    (distributable : ℕ) (m : PoolMember) (ms : List PoolMember)
    → sum_quota (cold_start distributable (m ∷ ms)) ≡ pos distributable
unfolding cold_start
sum_quota-cold_start d m ms =
    let n = length (m ∷ ms) in
    let each = d / n in
    let target = max_index id_less (m ∷ ms) in
    rw (sum_quota-spread each (d - each * n) target 0 (m ∷ ms)) (
      ap pos (
        omega (
          arith,
          div-add-mod' d n,
          max_index-lt id_less m ms,
          all_received (d - each * n) target n (max_index-lt id_less m ms),
        )))

hand_out :
    (f bonus_pool target : ℕ) (ms : List PoolMember) (shares : List ℕ)
    → length shares ≡ length ms
    → target < length ms
    → let leftover = pos bonus_pool -ℤ pos (sum_by (λ s. s) shares) in
      sum_quota (assemble f ms (add_at target leftover (map pos shares)))
      ≡ pos (f * length ms + bonus_pool)
hand_out f bonus_pool target ms shares same h =
    let total = sum_by (λ s. s) shares in
    let leftover = pos bonus_pool -ℤ pos total in
    let n : length (map pos shares) ≡ length ms = length-map pos shares ∙ same in
    sum_quota-assemble f ms _ (length-add_at target leftover (map pos shares) ∙ n)
    ∙ ap (λ (t : ℤ). pos (f * length ms) +ℤ t)
        (sum_ℤ-add_at target leftover (map pos shares) (omega (arith, n))
          ∙ ap (λ (t : ℤ). t +ℤ leftover) (sum_ℤ-pos shares))
    ∙ omega int_laws

-- So does every later round, for any shares.
pub sum_quota-proportional :
    (distributable floor_per_member : ℕ) (m : PoolMember) (ms : List PoolMember)
    → floor_per_member * length (m ∷ ms) ≤ distributable
    → sum_quota (proportional distributable floor_per_member (m ∷ ms)) ≡ pos distributable
unfolding proportional
sum_quota-proportional d f m ms h =
    let pool = m ∷ ms in
    let bonus_pool = d - f * length pool in
    let shares = map (share bonus_pool (usage_sum pool)) pool in
    hand_out f bonus_pool (max_index usage_less pool) pool shares
      (length-map (share bonus_pool (usage_sum pool)) pool) (max_index-lt usage_less m ms)
    ∙ ap pos (omega arith)
