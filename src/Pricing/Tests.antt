-- ===== src/Pricing/Tests.antt =====
-- Two versions of the price of one model, and one that is added.
use ai_api.Base.{
  ◌≡◌, refl, true, false, none, some, List, [], ◌∷◌, arith, text_eq, strip_provider, ok,
}
use mathlib.Core.Option
use ai_api.Base.Int.{pos}
use ai_api.Models.{Text, Instant}
use ai_api.Access.ModelAccess.{ModelCatalog, DefaultAccess}
use ai_api.Pricing.{
  PriceList, price_of, lookup_price_for_call, newest_first, insert_newest, calculate_cost,
  token_cost, calculate_unit_cost, select_current_version, latest, latest_from,
}
use ai_api.Pricing.Versions.{
  Amount, Version, PriceStore, create_version, prices_of, parse_all, parse, parse_optional,
  check_all, check_sign, row_of, nonempty, insert, reply,
}
use ai_api.Pricing.History.{run_all, lookup-run_all, create_version-lookup}
use ai_api.Pricing.Views.{
  current_price_map, price_for_slug, group_from, add_version, priced_items, entry_of, item_of,
}
use ai_api.Pricing.Billing.{shown, price_for_slug-lookup}

abbrev provider : Text
provider = b'p' ∷ []

abbrev model : Text
model = b'm' ∷ []

-- "p/m"
abbrev slug : Text
slug = b'p' ∷ b'/' ∷ b'm' ∷ []

abbrev version_at : Instant → PriceList
version_at at = record {
  id = at;
  provider = provider;
  model = model;
  input_per_1k_tokens_usd = at;
  output_per_1k_tokens_usd = 20;
  cached_input_per_1k_tokens_usd = some 1;
  price_unit = none;
  price_per_unit_usd = none;
  effective_from = at;
  created_at = 0;
  created_by = [];
  source_note = none;
}

abbrev prices : List PriceList
prices = version_at 5 ∷ version_at 9 ∷ []

abbrev catalog : List ModelCatalog
catalog =
    record {
      slug = slug;
      provider = provider;
      default_access = DefaultAccess.open_access;
      allowed_tags = [];
      denied_tags = [];
      self_service_enabled = false;
      self_service_default_quota = none;
    }
    ∷ []

at_seven : lookup_price_for_call provider model 7 prices ≡ some (price_of (version_at 5))
unfolding lookup_price_for_call newest_first insert_newest text_eq
at_seven = refl

at_nine : lookup_price_for_call provider model 9 prices ≡ some (price_of (version_at 9))
unfolding lookup_price_for_call newest_first insert_newest text_eq
at_nine = refl

before_all : lookup_price_for_call provider model 4 prices ≡ none
unfolding lookup_price_for_call newest_first insert_newest text_eq
before_all = refl

-- 7 tokens at the full rate of 5, 3 at the cached rate of 1, 2 at 20
a_cost : calculate_cost (some (price_of (version_at 5))) (some 10) (some 2) (some 3) ≡ some 78
unfolding calculate_cost token_cost price_of
a_cost = refl

cost_above : calculate_cost (some (price_of (version_at 5))) (some 10) none (some 30) ≡ some 10
unfolding calculate_cost token_cost price_of
cost_above = refl

two_pages : calculate_unit_cost (some 2) (some 40) ≡ 80
unfolding calculate_unit_cost
two_pages = refl

shown_at_seven :
    price_for_slug (current_price_map prices 7) provider slug
    ≡ some (shown (price_of (version_at 5)))
unfolding price_for_slug current_price_map group_from add_version priced_items entry_of item_of
    text_eq strip_provider select_current_version latest latest_from price_of
shown_at_seven = refl

price_for_slug-lookup_example :
    price_for_slug (current_price_map prices 7) provider slug
    ≡ Option.map shown (lookup_price_for_call provider (strip_provider slug) 7 prices)
price_for_slug-lookup_example = price_for_slug-lookup prices 7 provider slug

abbrev store : PriceStore
store = record { price_list = prices; audit_log = [] }

abbrev added_at : Instant → Version
added_at at = record {
  provider = provider;
  model = model;
  input_per_1k = Amount.number (pos 3);
  output_per_1k = Amount.number (pos 4);
  effective_from = at;
  cached_input_per_1k = Amount.missing;
  price_unit = some [];
  price_per_unit = Amount.missing;
  source_note = none;
  created_by = [];
}

abbrev new_row : PriceList
new_row = record (version_at 12) {
  id = 30;
  input_per_1k_tokens_usd = 3;
  output_per_1k_tokens_usd = 4;
  cached_input_per_1k_tokens_usd = none;
  created_at = 15;
}

accepted : (create_version 30 15 (added_at 12) store).0 ≡ ok (new_row, true)
unfolding create_version prices_of parse_all parse parse_optional check_all check_sign row_of
    nonempty insert reply text_eq select_current_version latest latest_from
accepted = refl

create_version-lookup_example :
    lookup_price_for_call provider model 15 (create_version 30 15 (added_at 12) store).1.price_list
    ≡ some (price_of new_row)
create_version-lookup_example =
    create_version-lookup 30 15 15 (added_at 12) store new_row true accepted (omega arith)
      (λ _. omega arith, (λ _. omega arith, tt))

lookup-run_all_example :
    lookup_price_for_call provider model 10
      (run_all
        (record { id = 30; now = 15; version = added_at 12 }
          ∷ record { id = 31; now = 16; version = added_at 12 }
          ∷ [])
        store).price_list
    ≡ lookup_price_for_call provider model 10 prices
unfolding text_eq
lookup-run_all_example =
    lookup-run_all provider model 10
      (record { id = 30; now = 15; version = added_at 12 }
        ∷ record { id = 31; now = 16; version = added_at 12 }
        ∷ [])
      store (refl, (refl, tt))
