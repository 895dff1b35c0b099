-- ===== src/Pricing.antt =====
-- src/ai_api/services/pricing.py: the append-only price list, the price of a call, its cost, and the
-- readings of the list for the administrators. Prices are in units of the columns' scale, a hundred
-- millionth of a dollar; instants are in UTC, which `_aware` brings a naive one to.
pub mod Selection
pub mod Cost
pub mod Versions
pub mod History
pub mod Views
pub mod Groups
pub mod Billing
mod Tests
use ai_api.Base.{
  or_zero, ℕ, ◌+◌, ◌-◌, ◌*◌, Bool, true, false, not, Option, none, some, List, [], ◌∷◌, ◌++◌, map,
  filter, any, if◌then◌else◌, leb, ltb, ◌==◌, ◌&&◌, ◌||◌, text_eq, strip_provider, Try, ok, raise,
}
use ai_api.Models.{Text, Instant}

pub record PriceList : Type 0 where
  pub id : ℕ
  pub provider : Text
  pub model : Text
  pub input_per_1k_tokens_usd : ℕ
  pub output_per_1k_tokens_usd : ℕ
  pub cached_input_per_1k_tokens_usd : Option ℕ
  pub price_unit : Option Text
  pub price_per_unit_usd : Option ℕ
  pub effective_from : Instant
  pub created_at : Instant
  pub created_by : Text
  pub source_note : Option Text

pub record Price : Type 0 where
  pub input_per_1k : ℕ
  pub output_per_1k : ℕ
  pub provider : Text
  pub model : Text
  pub effective_from : Instant
  pub cached_input_per_1k : Option ℕ
  pub price_unit : Option Text
  pub price_per_unit : Option ℕ

unfoldable pub price_of : PriceList → Price
price_of row = record {
  input_per_1k = row.input_per_1k_tokens_usd;
  output_per_1k = row.output_per_1k_tokens_usd;
  provider = row.provider;
  model = row.model;
  effective_from = row.effective_from;
  cached_input_per_1k = row.cached_input_per_1k_tokens_usd;
  price_unit = row.price_unit;
  price_per_unit = row.price_per_unit_usd;
}

abbrev pub has_key : Text → Text → PriceList → Bool
has_key provider model row = text_eq row.provider provider && text_eq row.model model

abbrev pub in_effect : Instant → PriceList → Bool
in_effect now row = leb row.effective_from now

-- `ORDER BY effective_from DESC`; no two rows of a key tie
unfoldable pub insert_newest : PriceList → List PriceList → List PriceList
insert_newest row [] = row ∷ []
insert_newest row (other ∷ rows) =
    if leb other.effective_from row.effective_from
    then row ∷ other ∷ rows
    else other ∷ insert_newest row rows

unfoldable pub newest_first : List PriceList → List PriceList
unfolding insert_newest
newest_first [] = []
newest_first (row ∷ rows) = insert_newest row (newest_first rows)

abbrev pub first : List PriceList → Option PriceList
first [] = none
first (row ∷ rows) = some row

-- the rows of the query of `lookup_price_for_call`, before their order and limit
abbrev pub effective_rows : Text → Text → Instant → List PriceList → List PriceList
effective_rows provider model time rows =
    filter (λ row. has_key provider model row && in_effect time row) rows

-- `lookup_price_for_call`
unfoldable pub lookup_price_for_call : Text → Text → Instant → List PriceList → Option Price
unfolding newest_first price_of text_eq
lookup_price_for_call provider model call_time rows =
    elim (first (newest_first (effective_rows provider model call_time rows))) [
      | none ↦ none
      | some row ↦ some (price_of row)
    ]

-- `max(eligible, key=...)`: the first of the greatest
unfoldable pub latest_from : PriceList → List PriceList → PriceList
latest_from best [] = best
latest_from best (row ∷ rows) =
    latest_from (if ltb best.effective_from row.effective_from then row else best) rows

unfoldable pub latest : List PriceList → Option PriceList
unfolding latest_from
latest [] = none
latest (row ∷ rows) = some (latest_from row rows)

-- `select_current_version`
unfoldable pub select_current_version : List PriceList → Instant → Option PriceList
unfolding latest
select_current_version versions now = latest (filter (in_effect now) versions)

abbrev pub cached_rate : Price → ℕ
cached_rate price = elim price.cached_input_per_1k [ none ↦ price.input_per_1k | some rate ↦ rate ]

-- the sum of `calculate_cost`, a thousand times
unfoldable pub token_cost : Price → ℕ → ℕ → ℕ → ℕ
token_cost price full_input cached completion =
    full_input * price.input_per_1k + cached * cached_rate price + completion * price.output_per_1k

-- `calculate_cost`, in thousandths of the unit of the prices, where the sum is exact
unfoldable pub calculate_cost : Option Price → Option ℕ → Option ℕ → Option ℕ → Option ℕ
unfolding token_cost
calculate_cost none prompt completion cached = none
calculate_cost (some price) prompt completion cached =
    if ltb (or_zero prompt) (or_zero cached)
    then some (token_cost price 0 (or_zero prompt) (or_zero completion))
    else some
        (token_cost price (or_zero prompt - or_zero cached) (or_zero cached) (or_zero completion))

-- `calculate_unit_cost`; a quantity of zero costs zero
unfoldable pub calculate_unit_cost : Option ℕ → Option ℕ → ℕ
calculate_unit_cost (some quantity) (some price_per_unit) = quantity * price_per_unit
calculate_unit_cost _ _ = 0
