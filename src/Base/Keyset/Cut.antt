-- ===== src/Base/Keyset/Cut.antt =====
-- The rows behind a row, and the rest that a limit leaves.
use mathlib.Core.Path.{subst}
use ai_api.Base.{
  ltb, not, is_empty, ℕ, zero, suc, ◌≤◌, ◌≡◌, inl, inr, refl, ap, sym, ◌∙◌, Bool, true, List, [],
  ◌∷◌, ◌++◌, map, filter, arith, All, Has, filter-Has, length,
}
use ai_api.Base.UniqueKeys.{Distinct, Distinct-filter}
use ai_api.Base.Keyset.{is_newer, order_rows, follows, limit_rows}
use ai_api.Base.Keyset.Order.{
  Sorted, newer_asym, newer_irrefl, Sorted-order_rows, Has-order_rows, filter-order_rows,
}

module _ {A : Type 0} where
  Has-middle : (ws : List A) (r : A) (ys : List A) → Has r (ws ++ r ∷ ys)
  Has-middle [] r ys = inl refl
  Has-middle (w ∷ ws) r ys = inr (Has-middle ws r ys)

  All-middle : (P : A → Type 0) (ws : List A) (r : A) (ys : List A) → All P (ws ++ r ∷ ys) → P r
  All-middle P [] r ys h = h.0
  All-middle P (w ∷ ws) r ys h = All-middle P ws r ys h.1

  filter_everything :
      (p : A → Bool) (rows : List A) → All (λ s. p s ≡ true) rows → filter p rows ≡ rows
  filter_everything p [] h = refl
  filter_everything p (r ∷ rows) h = ground (arith, h.0, filter_everything p rows h.1)

  unfoldable pub drop_rows : ℕ → List A → List A
  drop_rows n [] = []
  drop_rows zero (r ∷ rows) = r ∷ rows
  drop_rows (suc n) (r ∷ rows) = drop_rows n rows

  pub limit-drop : (n : ℕ) (rows : List A) → limit_rows n rows ++ drop_rows n rows ≡ rows
  unfolding limit_rows drop_rows
  limit-drop n [] = refl
  limit-drop zero (r ∷ rows) = refl
  limit-drop (suc n) (r ∷ rows) = ap (λ xs. r ∷ xs) (limit-drop n rows)

  pub length-drop : (n : ℕ) (rows : List A) → length (drop_rows n rows) ≤ length rows
  unfolding drop_rows
  length-drop n [] = omega arith
  length-drop zero (r ∷ rows) = omega arith
  length-drop (suc n) (r ∷ rows) = omega (arith, length-drop n rows)

  pub limit-limit :
      (n : ℕ) (rows : List A) → limit_rows n (limit_rows (suc n) rows) ≡ limit_rows n rows
  unfolding limit_rows
  limit-limit n [] = refl
  limit-limit zero (r ∷ rows) = refl
  limit-limit (suc n) (r ∷ rows) = ap (λ xs. r ∷ xs) (limit-limit n rows)

  -- one row more is there exactly when the limit leaves a rest
  pub limit-more :
      (n : ℕ) (rows : List A)
      → ltb n (length (limit_rows (suc n) rows)) ≡ not (is_empty (drop_rows n rows))
  unfolding limit_rows drop_rows
  limit-more n [] = ground arith
  limit-more zero (r ∷ []) = refl
  limit-more zero (r ∷ s ∷ rows) = refl
  limit-more (suc n) (r ∷ rows) = ground (arith, limit-more n rows)

module _ {A : Type 0} (id at : A → ℕ) where
  -- of a sorted list, the rows that a row is newer than are those behind it
  filter-newer :
      (ws : List A) (r : A) (ys : List A)
      → Sorted id at (ws ++ r ∷ ys)
      → filter (is_newer id at r) (ws ++ r ∷ ys) ≡ ys
  filter-newer [] r ys h = rw (newer_irrefl id at r) (filter_everything (is_newer id at r) ys h.0)
  filter-newer (w ∷ ws) r ys h =
      rw (newer_asym id at w r (All-middle _ ws r ys h.0)) (filter-newer ws r ys h.1)

  -- the whole list of what is selected
  abbrev pub whole : (A → Bool) → List A → List A
  whole selects table = order_rows id at (filter selects table)

  -- a row of the whole list is one of the table
  pub Has-whole :
      (selects : A → Bool) (table ws : List A) (r : A) (ys : List A)
      → whole selects table ≡ ws ++ r ∷ ys
      → Has r table
  Has-whole selects table ws r ys cut =
      let listed : Has r (whole selects table) = subst (Has r) (sym cut) (Has-middle ws r ys) in
      (filter-Has selects table r (Has-order_rows id at (filter selects table) r listed)).0

  -- the condition of a cursor leaves what follows its row in the whole list
  pub order-follows :
      (selects : A → Bool) (table ws : List A) (r : A) (ys : List A)
      → Distinct (map id table)
      → whole selects table ≡ ws ++ r ∷ ys
      → order_rows id at (filter (follows id at (at r) (id r)) (filter selects table)) ≡ ys
  order-follows selects table ws r ys distinct cut =
      let kept = Distinct-filter id selects table distinct in
      filter-order_rows id at (is_newer id at r) (filter selects table) kept
      ∙ ap (filter (is_newer id at r)) cut
      ∙ filter-newer ws r ys
          (subst (Sorted id at) cut (Sorted-order_rows id at (filter selects table) kept))
