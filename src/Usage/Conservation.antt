-- ===== src/Usage/Conservation.antt =====
-- The sums of the groups of the reports beside those of the calls.
use ai_api.Base.{
  or_zero, ℕ, ◌+◌, ◌*◌, ◌≡◌, inl, inr, refl, ap, sym, ◌∙◌, Bool, List, [], ◌∷◌, ◌++◌, map, filter,
  arith, All, All-append, All-filter, sum_by, length, ◌==◌, leb, Bool-cases,
}
use ai_api.Models.{Allocation, Member}
use ai_api.Usage.{
  UsageCall, UsageDb, Totals, no_totals, add_call, Keyed, Grouped, add_row, group_rows,
  insert_group, order_groups, Joined, is_allocation, join_allocations, Filters, passes, base_rows,
}
use ai_api.Usage.Reports.{
  GroupBy, by_member, by_allocation, by_model, of_id, GroupKey, same_key, keyed_rows, all_rows,
  aggregate_usage,
}

-- a column of the sums, and the column of a call that it adds up
module _ (column : Totals → ℕ) (amount : UsageCall → ℕ) (start : column no_totals ≡ 0)
    (step : (c : UsageCall) (t : Totals) → column (add_call c t) ≡ amount c + column t) where
  abbrev of_rows : {K : Type 0} → List (Keyed K) → ℕ
  of_rows rows = sum_by (λ r. amount r.call) rows

  abbrev of_groups : {K : Type 0} → List (Grouped K) → ℕ
  of_groups groups = sum_by (λ g. column g.totals) groups

  of_groups-add_row :
      {K : Type 0} (same : K → K → Bool) (r : Keyed K) (groups : List (Grouped K))
      → of_groups (add_row same r groups) ≡ amount r.call + of_groups groups
  unfolding add_row
  of_groups-add_row same r [] = omega (arith, step r.call no_totals, start)
  of_groups-add_row same r (g ∷ groups) = elim (Bool-cases (same g.key r.key)) [
    | inl hit ↦ rw hit (omega (arith, step r.call g.totals))
    | inr other ↦ rw other (omega (arith, of_groups-add_row same r groups))
  ]

  of_groups-group_rows :
      {K : Type 0} (same : K → K → Bool) (rows : List (Keyed K))
      → of_groups (group_rows same rows) ≡ of_rows rows
  unfolding group_rows
  of_groups-group_rows same [] = refl
  of_groups-group_rows same (r ∷ rows) =
      of_groups-add_row same r (group_rows same rows)
      ∙ ap (λ n. amount r.call + n) (of_groups-group_rows same rows)

  of_groups-insert_group :
      {K : Type 0} (g : Grouped K) (groups : List (Grouped K))
      → of_groups (insert_group g groups) ≡ column g.totals + of_groups groups
  unfolding insert_group
  of_groups-insert_group g [] = refl
  of_groups-insert_group g (h ∷ groups) =
      elim (Bool-cases (leb h.totals.total_tokens g.totals.total_tokens)) [
        | inl before ↦ rw before refl
        | inr after ↦ rw after (omega (arith, of_groups-insert_group g groups))
      ]

  of_groups-order_groups :
      {K : Type 0} (groups : List (Grouped K)) → of_groups (order_groups groups) ≡ of_groups groups
  unfolding order_groups
  of_groups-order_groups [] = refl
  of_groups-order_groups (g ∷ groups) =
      of_groups-insert_group g (order_groups groups)
      ∙ ap (λ n. column g.totals + n) (of_groups-order_groups groups)

  of_report :
      (by : GroupBy) (f : Filters) (db : UsageDb)
      → of_groups (aggregate_usage by f db) ≡ of_rows (all_rows by db (base_rows f db))
  unfolding aggregate_usage
  of_report by f db =
      of_groups-order_groups (group_rows same_key (all_rows by db (base_rows f db)))
      ∙ of_groups-group_rows same_key (all_rows by db (base_rows f db))

  of_rows-append :
      {K : Type 0} (rows more : List (Keyed K))
      → of_rows (rows ++ more) ≡ of_rows rows + of_rows more
  of_rows-append [] more = omega arith
  of_rows-append (r ∷ rows) more = omega (arith, of_rows-append rows more)

  -- the calls of the base rows
  abbrev of_joined : List Joined → ℕ
  of_joined rows = sum_by (λ j. amount j.call) rows

  of_rows-by_allocation :
      (db : UsageDb) (rows : List Joined)
      → of_rows (all_rows by_allocation db rows) ≡ of_joined rows
  unfolding all_rows keyed_rows
  of_rows-by_allocation db [] = refl
  of_rows-by_allocation db (j ∷ rows) = ap (λ n. amount j.call + n) (of_rows-by_allocation db rows)

  of_rows-by_model :
      (db : UsageDb) (rows : List Joined) → of_rows (all_rows by_model db rows) ≡ of_joined rows
  unfolding all_rows keyed_rows
  of_rows-by_model db [] = refl
  of_rows-by_model db (j ∷ rows) = ap (λ n. amount j.call + n) (of_rows-by_model db rows)

  of_rows-copies :
      (c : UsageCall) (key : Member → GroupKey) (members : List Member)
      → of_rows (map (λ m. record { key = key m; call = c }) members) ≡ length members * amount c
  of_rows-copies c key [] = omega arith
  of_rows-copies c key (m ∷ members) = omega (arith, of_rows-copies c key members)

  -- where the member of each row is in the table once
  of_rows-by_member :
      (db : UsageDb) (rows : List Joined)
      → All (λ j. length (filter (λ m. m.id == j.allocation.member_id) db.members) ≡ 1) rows
      → of_rows (all_rows by_member db rows) ≡ of_joined rows
  unfolding all_rows keyed_rows
  of_rows-by_member db [] h = refl
  of_rows-by_member db (j ∷ rows) h =
      let copies =
        of_rows-copies j.call (λ m. of_id m.id)
          (filter (λ m. m.id == j.allocation.member_id) db.members) in
      of_rows-append (keyed_rows by_member db j) (all_rows by_member db rows)
      ∙ omega (arith, rw h.0 at copies, of_rows-by_member db rows h.1)

  -- the sums of the three reports are those of the base rows
  of_reports :
      (f : Filters) (db : UsageDb)
      → All
          (λ j. length (filter (λ m. m.id == j.allocation.member_id) db.members) ≡ 1)
          (base_rows f db)
      → (of_groups (aggregate_usage by_allocation f db) ≡ of_joined (base_rows f db))
        × (of_groups (aggregate_usage by_model f db) ≡ of_joined (base_rows f db))
        × (of_groups (aggregate_usage by_member f db) ≡ of_joined (base_rows f db))
  of_reports f db h = (
    of_report by_allocation f db ∙ of_rows-by_allocation db (base_rows f db),
    of_report by_model f db ∙ of_rows-by_model db (base_rows f db),
    of_report by_member f db ∙ of_rows-by_member db (base_rows f db) h,
  )

  pub reports_agree_on :
      (f : Filters) (db : UsageDb)
      → All
          (λ j. length (filter (λ m. m.id == j.allocation.member_id) db.members) ≡ 1)
          (base_rows f db)
      → (of_groups (aggregate_usage by_model f db) ≡ of_groups (aggregate_usage by_allocation f db))
        × (of_groups (aggregate_usage by_member f db)
            ≡ of_groups (aggregate_usage by_allocation f db))
  reports_agree_on f db h = let r = of_reports f db h in (r.1 ∙ sym r.0, r.2 ∙ sym r.0)

module _ (P : Allocation → Type 0) where
  All-map_joined :
      (c : UsageCall) (p : Allocation → Bool) (allocations : List Allocation)
      → All P allocations
      → All
          (λ (j : Joined). P j.allocation)
          (map (λ a. record { call = c; allocation = a }) (filter p allocations))
  All-map_joined c p [] h = tt
  All-map_joined c p (a ∷ allocations) h = elim (Bool-cases (p a)) [
    | inl kept ↦ rw kept (h.0, All-map_joined c p allocations h.1)
    | inr dropped ↦ rw dropped (All-map_joined c p allocations h.1)
  ]

  -- what holds of all allocations holds of those of the base rows
  All-joined :
      (calls : List UsageCall) (allocations : List Allocation)
      → All P allocations
      → All (λ (j : Joined). P j.allocation) (join_allocations calls allocations)
  unfolding join_allocations
  All-joined [] allocations h = tt
  All-joined (c ∷ calls) allocations h =
      All-append _ _ _ (All-map_joined c (is_allocation c.allocation_id) allocations h)
        (All-joined calls allocations h)

-- a column of the sums of a report, over its groups
abbrev pub summed : (Totals → ℕ) → List (Grouped GroupKey) → ℕ
summed column groups = sum_by (λ g. column g.totals) groups

-- two reports with the same sums of tokens, of costs and of calls
abbrev pub SameSums : List (Grouped GroupKey) → List (Grouped GroupKey) → Type 0
SameSums r s =
    (summed (λ t. t.total_tokens) r ≡ summed (λ t. t.total_tokens) s)
    × (summed (λ t. t.total_cost_usd) r ≡ summed (λ t. t.total_cost_usd) s)
    × (summed (λ t. t.call_count) r ≡ summed (λ t. t.call_count) s)

-- The reports agree: where the member of each allocation is in the table of members once, the usage by model,
-- by member and by allocation add up to the same tokens, the same cost and the same number of calls, whatever
-- filters are set.
pub reports_agree :
    (f : Filters) (db : UsageDb)
    → All (λ a. length (filter (λ m. m.id == a.member_id) db.members) ≡ 1) db.allocations
    → SameSums (aggregate_usage by_model f db) (aggregate_usage by_allocation f db)
      × SameSums (aggregate_usage by_member f db) (aggregate_usage by_allocation f db)
unfolding add_call base_rows
reports_agree f db h =
    let rows = All-filter _ (passes f) (join_allocations db.calls db.allocations) (
      All-joined (λ a. length (filter (λ m. m.id == a.member_id) db.members) ≡ 1) db.calls
        db.allocations h) in
    let tokens =
      reports_agree_on (λ t. t.total_tokens) (λ c. or_zero c.total_tokens) refl (λ c t. refl) f db
        rows in
    let cost =
      reports_agree_on (λ t. t.total_cost_usd) (λ c. or_zero c.cost_usd) refl (λ c t. refl) f db
        rows in
    let calls = reports_agree_on (λ t. t.call_count) (λ _. 1) refl (λ c t. omega arith) f db rows in
    ((tokens.0, cost.0, calls.0), (tokens.1, cost.1, calls.1))
