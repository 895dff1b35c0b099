-- ===== src/Pool/Shares.antt =====
-- The shares of `compute_rebalance` beside the usages that they go by.
use mathlib.Core.List.{append_assoc}
use ai_api.Base.{
  ℕ, zero, suc, ◌+◌, ◌*◌, ◌≤◌, ◌<◌, ◌≡◌, refl, ap, ◌∙◌, inl, inr, Bool, true, false, List, [], ◌∷◌,
  ◌++◌, map, arith, if◌then◌else◌, length, length-append, sum_by, Bool-cases, leb, leb→le,
  not_leb→lt,
}
use ai_api.Pool.{PoolMember, max_from, usage_less, share}
use ai_api.Pool.TrueDivision.{two_53}
use ai_api.Pool.TrueDivision.Accuracy.{int_true_div-le}

abbrev pub usage : PoolMember → ℕ
usage m = m.usage_last_month

-- A share exceeds its exact value by 2 ^ -53 of it at most.
share-le :
    (bonus total : ℕ) (m : PoolMember)
    → 0 < total
    → share bonus total m * total * two_53 ≤ bonus * usage m * (two_53 + 1)
unfolding share
share-le bonus total m h = ground (arith, int_true_div-le (bonus * m.usage_last_month) total h)

-- all members but the one at `target`
abbrev pub without {ℓ} : {A : Type ℓ} → ℕ → List A → List A
without target [] = []
without zero (x ∷ xs) = xs
without (suc target) (x ∷ xs) = x ∷ without target xs

pub shares-le :
    (bonus total : ℕ) (ms : List PoolMember)
    → 0 < total
    → sum_by (share bonus total) ms * total * two_53 ≤ bonus * sum_by usage ms * (two_53 + 1)
shares-le bonus total [] h = omega arith
shares-le bonus total (m ∷ ms) h =
    omega (arith, share-le bonus total m h, shares-le bonus total ms h)

module _ {ℓ} {A : Type ℓ} (f : A → ℕ) where
  -- the value of the element at `target`
  abbrev pub value_at : ℕ → List A → ℕ
  value_at target [] = 0
  value_at zero (x ∷ xs) = f x
  value_at (suc target) (x ∷ xs) = value_at target xs

  pub sum-without :
      (target : ℕ) (xs : List A) → sum_by f xs ≡ value_at target xs + sum_by f (without target xs)
  sum-without target [] = omega arith
  sum-without zero (x ∷ xs) = refl
  sum-without (suc target) (x ∷ xs) = omega (arith, sum-without target xs)

  pub sum-map : (xs : List A) → sum_by (λ s. s) (map f xs) ≡ sum_by f xs
  sum-map [] = refl
  sum-map (x ∷ xs) = rw (sum-map xs)

  value_at-append : (ys : List A) (x : A) (xs : List A) → value_at (length ys) (ys ++ x ∷ xs) ≡ f x
  value_at-append [] x xs = refl
  value_at-append (y ∷ ys) x xs = value_at-append ys x xs

module _ {ℓ} {A : Type ℓ} (f : A → ℕ) where
  pub value_at-map :
      (target : ℕ) (xs : List A) → value_at (λ s. s) target (map f xs) ≡ value_at f target xs
  value_at-map target [] = refl
  value_at-map zero (x ∷ xs) = refl
  value_at-map (suc target) (x ∷ xs) = value_at-map target xs

mul_mono : (a b c : ℕ) → a ≤ b → a * c ≤ b * c
mul_mono a b c h = grind arith

pub cancel-lt : (a b c : ℕ) → a * c < suc b * c → a ≤ b
cancel-lt a b c h = grind arith

-- With 2 ^ 53 members at most, the others' rounding does not eat the bonus up.
pub others-le :
    (bonus total others top n s : ℕ)
    → s * total * two_53 ≤ bonus * others * (two_53 + 1)
    → total ≡ top + others
    → total ≤ n * top
    → n ≤ two_53
    → 0 < total
    → s ≤ bonus
others-le bonus total others top n s h e avg small h0 = elim (Bool-cases (leb s bonus)) [
  | inl fits ↦ leb→le s bonus fits
  | inr over ↦ absurd (
      omega (
        arith,
        h,
        mul_mono (suc bonus) s total (not_leb→lt s bonus over),
        ap (λ (t : ℕ). bonus * t) e,
        mul_mono total (two_53 * top) bonus (omega (arith, avg, mul_mono n two_53 top small)),
      ))
]

-- the largest usage, by the comparisons of `max_from`
unfoldable pub max_usage : PoolMember → List PoolMember → ℕ
max_usage m [] = usage m
max_usage m (x ∷ xs) = max_usage (if usage_less m x then x else m) xs

pub max_usage-le : (m : PoolMember) (xs : List PoolMember) → usage m ≤ max_usage m xs
unfolding max_usage
max_usage-le m [] = omega arith
max_usage-le m (x ∷ xs) = ground (arith, max_usage-le x xs, max_usage-le m xs)

pub sum-le-max_usage :
    (m : PoolMember) (xs : List PoolMember) → sum_by usage xs ≤ length xs * max_usage m xs
unfolding max_usage
sum-le-max_usage m [] = omega arith
sum-le-max_usage m (x ∷ xs) =
    let next : PoolMember = if usage_less m x then x else m in
    let larger : usage x ≤ usage next = ground arith in
    omega (arith, larger, max_usage-le next xs, sum-le-max_usage next xs)

length-snoc : (ys : List PoolMember) (x : PoolMember) → length (ys ++ x ∷ []) ≡ suc (length ys)
length-snoc ys x = length-append ys (x ∷ []) ∙ omega arith

chosen :
    (best : ℕ) (m : PoolMember) (ys : List PoolMember) (x : PoolMember) (xs : List PoolMember)
    (better : Bool)
    → value_at usage best (ys ++ x ∷ xs) ≡ usage m
    → value_at usage (if better then length ys else best) (ys ++ x ∷ xs)
      ≡ usage (if better then x else m)
chosen best m ys x xs true h = value_at-append usage ys x xs
chosen best m ys x xs false h = h

pub value_at-max_from :
    (best : ℕ) (m : PoolMember) (ys xs : List PoolMember)
    → value_at usage best (ys ++ xs) ≡ usage m
    → value_at usage (max_from usage_less best m (length ys) xs) (ys ++ xs) ≡ max_usage m xs
unfolding max_from max_usage
value_at-max_from best m ys [] h = h
value_at-max_from best m ys (x ∷ xs) h =
    let better = usage_less m x in
    let i = length ys in
    let rest =
      value_at-max_from (if better then i else best) (if better then x else m) (ys ++ x ∷ []) xs
        (rw append_assoc (chosen best m ys x xs better h)) in
    rw (append_assoc, length-snoc ys x) at rest
