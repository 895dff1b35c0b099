-- ===== src/Members/Counts.antt =====
-- The number of active administrators under the changes of members.
use mathlib.Core.Path.{subst}
use ai_api.Base.{
  ℕ, suc, ◌≤◌, ◌≡◌, inl, inr, refl, Bool, true, false, not, none, some, List, [], ◌∷◌, map, filter,
  length, arith, All, get, modify, modify-missing, ◌==◌, ==_iff, ◌&&◌, Bool-cases,
}
use ai_api.Base.UniqueKeys.{Distinct}

module _ {A : Type 0} (key : A → ℕ) (p : A → Bool) where
  -- a change of the rows of a key to what passes the test, or of those that do not pass it
  pub length-modify_more :
      (k : ℕ) (f : A → A) (rows : List A)
      → ((x : A) → p x ≡ true → p (f x) ≡ true)
      → length (filter p rows) ≤ length (filter p (modify key k f rows))
  length-modify_more k f [] h = omega arith
  length-modify_more k f (x ∷ rows) h = ground (arith, h x, length-modify_more k f rows h)

  pub absent :
      (k : ℕ) (rows : List A) → All (λ n. (k == n) ≡ false) (map key rows) → get key k rows ≡ none
  absent k [] h = refl
  absent k (x ∷ rows) h = ground (arith, h.0, absent k rows h.1)

  -- where keys are distinct, the change of the row of a key takes away at most one
  pub length-modify_less :
      (k : ℕ) (f : A → A) (rows : List A)
      → Distinct (map key rows)
      → length (filter p rows) ≤ suc (length (filter p (modify key k f rows)))
  length-modify_less k f [] h = omega arith
  length-modify_less k f (x ∷ rows) h = elim (Bool-cases (key x == k)) [
    | inl same ↦
        let only = modify-missing key k f rows (
          absent k rows (
            subst (λ n. All (λ m. (n == m) ≡ false) (map key rows)) ((==_iff (key x) k).0 same)
              h.0)) in
        ground (arith, same, only)
    | inr other ↦ ground (arith, other, length-modify_less k f rows h.1)
  ]

  -- deletion of the rows of a key
  pub filter-delete :
      (k : ℕ) (rows : List A)
      → filter p (filter (λ x. not (key x == k)) rows) ≡ filter (λ x. p x && not (key x == k)) rows
  filter-delete k [] = refl
  filter-delete k (x ∷ rows) = ground (arith, filter-delete k rows)

  -- where the row of a key does not pass the test, its deletion takes none of those that do
  pub filter-delete_other :
      (k : ℕ) (rows : List A) (m : A)
      → Distinct (map key rows)
      → get key k rows ≡ some m
      → p m ≡ false
      → filter (λ x. p x && not (key x == k)) rows ≡ filter p rows
  filter-delete_other k [] m d found other = refl
  filter-delete_other k (x ∷ rows) m d found other = elim (Bool-cases (key x == k)) [
    | inl same ↦ ground (
      arith,
      same,
      found,
      other,
      filter-absent k rows
          (subst (λ n. All (λ j. (n == j) ≡ false) (map key rows)) ((==_iff (key x) k).0 same) d.0),
    )
    | inr apart ↦ ground (arith, apart, found, filter-delete_other k rows m d.1)
  ]
    where
      filter-absent :
          (k : ℕ) (rows : List A)
          → All (λ n. (k == n) ≡ false) (map key rows)
          → filter (λ x. p x && not (key x == k)) rows ≡ filter p rows
      filter-absent k [] h = refl
      filter-absent k (x ∷ rows) h = ground (arith, h.0, filter-absent k rows h.1)
