-- ===== src/Base/Keyset/Order.antt =====
-- The order of rows that are read by pages, and what a selection makes of it.
use ai_api.Base.{
  ℕ, ◌≡◌, inl, inr, refl, ap, sym, ◌∙◌, Bool, true, false, List, [], ◌∷◌, map, filter, arith, All,
  All-weaken, All-filter, Has, ◌==◌, if◌then◌else◌, Bool-cases,
}
use ai_api.Base.UniqueKeys.{Distinct}
use ai_api.Base.Keyset.{is_newer, insert_newer, order_rows}

module _ {A : Type 0} (id at : A → ℕ) where
  newer_trans :
      (r s t : A)
      → is_newer id at r s ≡ true
      → is_newer id at s t ≡ true
      → is_newer id at r t ≡ true
  newer_trans r s t h k = ground (arith, h, k)

  newer_total :
      (r s : A) → (id r == id s) ≡ false → is_newer id at r s ≡ false → is_newer id at s r ≡ true
  newer_total r s h k = ground (arith, h, k)

  pub newer_asym : (r s : A) → is_newer id at r s ≡ true → is_newer id at s r ≡ false
  newer_asym r s h = ground (arith, h)

  pub newer_irrefl : (r : A) → is_newer id at r r ≡ false
  newer_irrefl r = ground arith

  -- each row is newer than those behind it
  abbrev pub Sorted : List A → Type 0
  Sorted [] = Unit
  Sorted (r ∷ rows) = All (λ s. is_newer id at r s ≡ true) rows × Sorted rows

  All-insert_newer :
      (P : A → Type 0) (r : A) (rows : List A)
      → P r
      → All P rows
      → All P (insert_newer id at r rows)
  unfolding insert_newer
  All-insert_newer P r [] p h = (p, tt)
  All-insert_newer P r (s ∷ rows) p h = elim (Bool-cases (is_newer id at r s)) [
    | inl before ↦ rw before (p, h)
    | inr after ↦ rw after (h.0, All-insert_newer P r rows p h.1)
  ]

  All-order_rows : (P : A → Type 0) (rows : List A) → All P rows → All P (order_rows id at rows)
  unfolding order_rows
  All-order_rows P [] h = tt
  All-order_rows P (r ∷ rows) h =
      All-insert_newer P r (order_rows id at rows) h.0 (All-order_rows P rows h.1)

  Has-insert_newer :
      (r : A) (rows : List A) (x : A) → Has x (insert_newer id at r rows) → Has x (r ∷ rows)
  unfolding insert_newer
  Has-insert_newer r [] x h = h
  Has-insert_newer r (s ∷ rows) x h = elim (Bool-cases (is_newer id at r s)) [
    | inl before ↦ rw before at h
    | inr after ↦
        let k : Has x (s ∷ insert_newer id at r rows) = rw after at h in
        elim k [
          | inl same ↦ inr (inl same)
          | inr more ↦ elim (Has-insert_newer r rows x more) [
            | inl new ↦ inl new
            | inr old ↦ inr (inr old)
          ]
        ]
  ]

  pub Has-order_rows : (rows : List A) (x : A) → Has x (order_rows id at rows) → Has x rows
  unfolding order_rows
  Has-order_rows [] x h = h
  Has-order_rows (r ∷ rows) x h = elim (Has-insert_newer r (order_rows id at rows) x h) [
    | inl new ↦ inl new
    | inr old ↦ inr (Has-order_rows rows x old)
  ]

  All-newer :
      (r s : A) (rows : List A)
      → is_newer id at r s ≡ true
      → All (λ t. is_newer id at s t ≡ true) rows
      → All (λ t. is_newer id at r t ≡ true) rows
  All-newer r s rows h = All-weaken _ _ rows (λ t k. newer_trans r s t h k)

  Sorted-insert_newer :
      (r : A) (rows : List A)
      → All (λ s. (id r == id s) ≡ false) rows
      → Sorted rows
      → Sorted (insert_newer id at r rows)
  unfolding insert_newer
  Sorted-insert_newer r [] new h = (tt, tt)
  Sorted-insert_newer r (s ∷ rows) new h = elim (Bool-cases (is_newer id at r s)) [
    | inl before ↦ rw before ((before, All-newer r s rows before h.0), h)
    | inr after ↦ rw after (
      All-insert_newer (λ t. is_newer id at s t ≡ true) r rows (newer_total r s new.0 after) h.0,
      Sorted-insert_newer r rows new.1 h.1,
    )
  ]

  All-ids :
      (r : A) (rows : List A)
      → All (λ n. (id r == n) ≡ false) (map id rows)
      → All (λ s. (id r == id s) ≡ false) rows
  All-ids r [] h = tt
  All-ids r (s ∷ rows) h = (h.0, All-ids r rows h.1)

  pub Sorted-order_rows : (rows : List A) → Distinct (map id rows) → Sorted (order_rows id at rows)
  unfolding order_rows
  Sorted-order_rows [] d = tt
  Sorted-order_rows (r ∷ rows) d =
      Sorted-insert_newer r (order_rows id at rows)
        (All-order_rows (λ s. (id r == id s) ≡ false) rows (All-ids r rows d.0))
        (Sorted-order_rows rows d.1)

  insert_first :
      (r : A) (rows : List A)
      → All (λ s. is_newer id at r s ≡ true) rows
      → insert_newer id at r rows ≡ r ∷ rows
  unfolding insert_newer
  insert_first r [] h = refl
  insert_first r (s ∷ rows) h = ground (arith, h.0)

  filter-insert_newer :
      (p : A → Bool) (r : A) (rows : List A)
      → Sorted rows
      → filter p (insert_newer id at r rows)
        ≡ (if p r then insert_newer id at r (filter p rows) else filter p rows)
  unfolding insert_newer
  filter-insert_newer p r [] h = refl
  filter-insert_newer p r (s ∷ rows) h = elim (Bool-cases (is_newer id at r s)) [
    | inl before ↦
        let first =
          insert_first r (filter p (s ∷ rows))
            (All-filter _ p (s ∷ rows) (before, All-newer r s rows before h.0)) in
        rw before (elim (Bool-cases (p r)) [
          | inl kept ↦ rw kept (sym first)
          | inr dropped ↦ rw dropped refl
        ])
    | inr after ↦ rw after (elim (Bool-cases (p s)) [
      | inl kept ↦ ground (arith, after, kept, filter-insert_newer p r rows h.1)
      | inr dropped ↦ ground (arith, after, dropped, filter-insert_newer p r rows h.1)
    ])
  ]

  -- to select and then to order is to order and then to select
  pub filter-order_rows :
      (p : A → Bool) (rows : List A)
      → Distinct (map id rows)
      → order_rows id at (filter p rows) ≡ filter p (order_rows id at rows)
  unfolding order_rows
  filter-order_rows p [] d = refl
  filter-order_rows p (r ∷ rows) d =
      let inserted = filter-insert_newer p r (order_rows id at rows) (Sorted-order_rows rows d.1) in
      elim (Bool-cases (p r)) [
        | inl kept ↦
            rw kept
              (ap (insert_newer id at r) (filter-order_rows p rows d.1) ∙ sym (rw kept at inserted))
        | inr dropped ↦ rw dropped (filter-order_rows p rows d.1 ∙ sym (rw dropped at inserted))
      ]
