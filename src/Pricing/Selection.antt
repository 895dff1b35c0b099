-- ===== src/Pricing/Selection.antt =====
-- The two ways in which src/ai_api/services/pricing.py selects the version in effect.
use ai_api.Base.{
  ◌≤◌, ◌<◌, All-weaken, Has, filter-Has, filter_nothing, All-of_filter, leb→le, not_leb→lt, ◌≡◌,
  ◌⊎◌, inl, inr, refl, ap, true, false, Option, none, some, List, [], ◌∷◌, arith, filter, leb, ◌&&◌,
  if◌then◌else◌, Bool-cases, All, ◌∙◌, sym,
}
use mathlib.Core.Option
use ai_api.Models.{Text, Instant}
use ai_api.Pricing.{
  PriceList, Price, price_of, has_key, in_effect, insert_newest, newest_first, first,
  effective_rows, lookup_price_for_call, latest_from, latest, select_current_version,
}

-- the later of a row and one that may be missing; of two at the same instant, the row
abbrev pub later_of : PriceList → Option PriceList → PriceList
later_of row none = row
later_of row (some other) = if leb other.effective_from row.effective_from then row else other

first-insert_newest :
    (row : PriceList) (rows : List PriceList)
    → first (insert_newest row rows) ≡ some (later_of row (first rows))
unfolding insert_newest
first-insert_newest row [] = refl
first-insert_newest row (other ∷ rows) = ground arith

latest_from-later :
    (best : PriceList) (rows : List PriceList) → latest_from best rows ≡ later_of best (latest rows)
unfolding latest_from latest
latest_from-later best [] = refl
latest_from-later best (row ∷ rows) =
    ground (arith, latest_from-later best rows, latest_from-later row rows)

-- the two selections agree: the first in descending order is the first of the greatest
pub first-newest_first : (rows : List PriceList) → first (newest_first rows) ≡ latest rows
unfolding newest_first latest
first-newest_first [] = refl
first-newest_first (row ∷ rows) =
    first-insert_newest row (newest_first rows)
    ∙ ap (λ o. some (later_of row o)) (first-newest_first rows)
    ∙ ap some (sym (latest_from-later row rows))

effective_rows-filter :
    (provider model : Text) (time : Instant) (rows : List PriceList)
    → effective_rows provider model time rows
      ≡ filter (in_effect time) (filter (has_key provider model) rows)
effective_rows-filter provider model time [] = refl
effective_rows-filter provider model time (row ∷ rows) =
    ground (arith, effective_rows-filter provider model time rows)

-- The price at which a call is billed is that of the version that the readings for administrators select as
-- current at the instant of the call, out of the versions of its provider and model; there is none exactly
-- when they select none.
pub lookup-select_current_version :
    (provider model : Text) (call_time : Instant) (rows : List PriceList)
    → lookup_price_for_call provider model call_time rows
      ≡ Option.map price_of
          (select_current_version (filter (has_key provider model) rows) call_time)
unfolding lookup_price_for_call select_current_version
lookup-select_current_version provider model time rows =
    ap priced (first-newest_first (effective_rows provider model time rows))
    ∙ ap (λ xs. priced (latest xs)) (effective_rows-filter provider model time rows)
    ∙ mapped (latest (filter (in_effect time) (filter (has_key provider model) rows)))
  where
    priced : Option PriceList → Option Price
    priced o = elim o [ none ↦ none | some row ↦ some (price_of row) ]

    mapped : (o : Option PriceList) → priced o ≡ Option.map price_of o
    mapped none = refl
    mapped (some row) = refl

-- what a row that is found must be: one of the rows, with no later one among them
pub record IsLatest (rows : List PriceList) (row : PriceList) : Type 0 where
  pub found : Has row rows
  pub newest : All (λ r. r.effective_from ≤ row.effective_from) rows

latest-cons :
    (x : PriceList) (xs : List PriceList) → latest (x ∷ xs) ≡ some (later_of x (latest xs))
unfolding latest
latest-cons x xs = ap some (latest_from-later x xs)

abbrev Selected : List PriceList → Type 0
Selected rows =
    ((latest rows ≡ none) × (rows ≡ []))
    ⊎ ((row : PriceList) × (latest rows ≡ some row) × IsLatest rows row)

IsLatest-older :
    (x row : PriceList) (xs : List PriceList)
    → IsLatest xs row
    → row.effective_from ≤ x.effective_from
    → IsLatest (x ∷ xs) x
IsLatest-older x row xs h le = record {
  found = inl refl;
  newest = (omega arith, All-weaken _ _ xs (λ r k. omega (arith, k, le)) h.newest);
}

IsLatest-newer :
    (x row : PriceList) (xs : List PriceList)
    → IsLatest xs row
    → x.effective_from < row.effective_from
    → IsLatest (x ∷ xs) row
IsLatest-newer x row xs h lt = record {
  found = inr h.found;
  newest = (omega (arith, lt), h.newest);
}

latest-cases : (rows : List PriceList) → Selected rows
unfolding latest
latest-cases [] = inl (refl, refl)
latest-cases (x ∷ xs) = elim (latest-cases xs) [
  | inl (none_of, empty) ↦ inr (
    x,
    latest-cons x xs ∙ ap (λ o. some (later_of x o)) none_of,
    rw empty (record { found = inl refl; newest = (omega arith, tt) }),
  )
  | inr (row, e, h) ↦
      let chosen = latest-cons x xs ∙ ap (λ o. some (later_of x o)) e in
      elim (Bool-cases (leb row.effective_from x.effective_from)) [
        | inl older ↦
            inr (x, ground (arith, chosen, older), IsLatest-older x row xs h (leb→le _ _ older))
        | inr newer ↦
            inr
              (row, ground (arith, chosen, newer), IsLatest-newer x row xs h (not_leb→lt _ _ newer))
      ]
]

-- `lookup_price_for_call` is exact, on both of its branches: either it finds no price, and then no row of the
-- provider and the model is in effect at the instant of the call, or it returns the price of a row of the
-- list, of that provider and model and in effect, and no such row is in effect later.
pub lookup_price_for_call_lem :
    (provider model : Text) (call_time : Instant) (rows : List PriceList)
    → ((lookup_price_for_call provider model call_time rows ≡ none)
        × All (λ r. (has_key provider model r && in_effect call_time r) ≡ false) rows)
      ⊎ ((row : PriceList) × (lookup_price_for_call provider model call_time rows
            ≡ some (price_of row))
          × Has row rows
          × ((has_key provider model row && in_effect call_time row) ≡ true)
          × All
              (λ r.
                (has_key provider model r && in_effect call_time r) ≡ true
                → r.effective_from ≤ row.effective_from)
              rows)
unfolding lookup_price_for_call
lookup_price_for_call_lem provider model time rows =
    elim (latest-cases (effective_rows provider model time rows)) [
      | inl (none_of, empty) ↦ inl (ap priced (same ∙ none_of), filter_nothing _ rows empty)
      | inr (row, e, h) ↦
          let found = filter-Has _ rows row h.found in
          inr (row, ap priced (same ∙ e), found.0, found.1, All-of_filter _ _ rows h.newest)
    ]
  where
    priced : Option PriceList → Option Price
    priced o = elim o [ none ↦ none | some row ↦ some (price_of row) ]

    same :
        first (newest_first (effective_rows provider model time rows))
        ≡ latest (effective_rows provider model time rows)
    same = first-newest_first (effective_rows provider model time rows)
