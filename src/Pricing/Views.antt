-- ===== src/Pricing/Views.antt =====
-- The readings of the price list of src/ai_api/services/pricing.py: by model of the catalog, and the
-- history of one model. A dict is the list of its items in the order of their insertion.
use ai_api.Base.{
  ℕ, Bool, true, false, not, Option, none, some, List, [], ◌∷◌, ◌++◌, map, filter, any,
  if◌then◌else◌, ltb, ◌==◌, ◌&&◌, ◌||◌, text_eq, strip_provider,
}
use ai_api.Models.{Text, Instant}
use ai_api.Access.ModelAccess.{ModelCatalog}
use ai_api.Pricing.{PriceList, has_key, newest_first, select_current_version}

-- the versions of a key
pub record Group : Type 0 where
  pub provider : Text
  pub model : Text
  pub versions : List PriceList

abbrev pub is_group : Text → Text → Group → Bool
is_group provider model g = text_eq g.provider provider && text_eq g.model model

-- `by_key.setdefault((p.provider, p.model), []).append(p)`
unfoldable pub add_version : PriceList → List Group → List Group
unfolding text_eq
add_version p [] = record { provider = p.provider; model = p.model; versions = p ∷ [] } ∷ []
add_version p (g ∷ groups) =
    if is_group p.provider p.model g
    then record g { versions = g.versions ++ p ∷ [] } ∷ groups
    else g ∷ add_version p groups

unfoldable pub group_from : List Group → List PriceList → List Group
unfolding add_version
group_from groups [] = groups
group_from groups (p ∷ rows) = group_from (add_version p groups) rows

-- `by_key`
abbrev pub by_key : List PriceList → List Group
by_key rows = group_from [] rows

-- `by_key.get((provider, model), [])`
unfoldable pub versions_of : Text → Text → List Group → List PriceList
unfolding text_eq
versions_of provider model [] = []
versions_of provider model (g ∷ groups) =
    if is_group provider model g then g.versions else versions_of provider model groups

-- a row of `list_catalog_prices`; `display_name` is left out
pub record CatalogPrice : Type 0 where
  pub provider : Text
  pub model : Text
  pub slug : Text
  pub current : Option PriceList
  pub in_catalog : Bool

unfoldable pub catalog_row : List Group → Instant → ModelCatalog → CatalogPrice
unfolding strip_provider versions_of select_current_version
catalog_row groups now m = record {
  provider = m.provider;
  model = strip_provider m.slug;
  slug = m.slug;
  current = select_current_version (versions_of m.provider (strip_provider m.slug) groups) now;
  in_catalog = true;
}

abbrev pub in_catalog : List ModelCatalog → Group → Bool
in_catalog models g =
    any (λ m. text_eq m.provider g.provider && text_eq (strip_provider m.slug) g.model) models

unfoldable pub orphan_row : Instant → Group → CatalogPrice
unfolding select_current_version
orphan_row now g = record {
  provider = g.provider;
  model = g.model;
  slug = g.provider ++ b'/' ∷ g.model;
  current = select_current_version g.versions now;
  in_catalog = false;
}

-- the order of texts
unfoldable pub text_lt : Text → Text → Bool
text_lt [] [] = false
text_lt [] (d ∷ t) = true
text_lt (c ∷ s) [] = false
text_lt (c ∷ s) (d ∷ t) = ltb c d || (c == d && text_lt s t)

-- the order of the key of `rows.sort`: `(not in_catalog, slug)`
abbrev pub row_lt : CatalogPrice → CatalogPrice → Bool
row_lt r s =
    if r.in_catalog
    then (if s.in_catalog then text_lt r.slug s.slug else true)
    else (if s.in_catalog then false else text_lt r.slug s.slug)

-- `rows.sort`, which is stable
unfoldable pub insert_row : CatalogPrice → List CatalogPrice → List CatalogPrice
unfolding text_lt
insert_row r [] = r ∷ []
insert_row r (s ∷ rows) = if row_lt s r then s ∷ insert_row r rows else r ∷ s ∷ rows

unfoldable pub sort_rows : List CatalogPrice → List CatalogPrice
unfolding insert_row
sort_rows [] = []
sort_rows (r ∷ rows) = insert_row r (sort_rows rows)

-- the rows before they are sorted
unfoldable pub catalog_rows : List ModelCatalog → List PriceList → Instant → List CatalogPrice
unfolding catalog_row orphan_row group_from strip_provider text_eq
catalog_rows models prices now =
    map (catalog_row (by_key prices) now) models
    ++ map (orphan_row now) (filter (λ g. not (in_catalog models g)) (by_key prices))

-- `list_catalog_prices`
unfoldable pub list_catalog_prices :
    List ModelCatalog → List PriceList → Instant → List CatalogPrice
unfolding catalog_rows sort_rows
list_catalog_prices models prices now = sort_rows (catalog_rows models prices now)

-- an entry of `current_price_map`
pub record Entry : Type 0 where
  pub input_per_1k : ℕ
  pub output_per_1k : ℕ
  pub cached_input_per_1k : Option ℕ
  pub unit_price : Option (Text × ℕ)

abbrev pub both : Option Text → Option ℕ → Option (Text × ℕ)
both (some unit) (some price) = some (unit, price)
both _ _ = none

unfoldable pub entry_of : PriceList → Entry
entry_of cur = record {
  input_per_1k = cur.input_per_1k_tokens_usd;
  output_per_1k = cur.output_per_1k_tokens_usd;
  cached_input_per_1k = cur.cached_input_per_1k_tokens_usd;
  unit_price = both cur.price_unit cur.price_per_unit_usd;
}

-- an item of the map
pub record Item : Type 0 where
  pub provider : Text
  pub model : Text
  pub entry : Entry

-- the loop of `current_price_map`
unfoldable pub priced_items : Instant → List Group → List Item
unfolding select_current_version entry_of
priced_items now [] = []
priced_items now (g ∷ groups) =
    let rest = priced_items now groups in
    elim (select_current_version g.versions now) [
      | none ↦ rest
      | some cur ↦ record { provider = g.provider; model = g.model; entry = entry_of cur } ∷ rest
    ]

-- `current_price_map`
unfoldable pub current_price_map : List PriceList → Instant → List Item
unfolding group_from priced_items
current_price_map prices now = priced_items now (by_key prices)

unfoldable pub item_of : Text → Text → List Item → Option Entry
unfolding text_eq
item_of provider model [] = none
item_of provider model (i ∷ items) =
    if text_eq i.provider provider && text_eq i.model model
    then some i.entry
    else item_of provider model items

-- `price_for_slug`
unfoldable pub price_for_slug : List Item → Text → Text → Option Entry
unfolding item_of strip_provider
price_for_slug price_map provider slug = item_of provider (strip_provider slug) price_map

-- a row of `list_history`
pub record HistoryRow : Type 0 where
  pub version : PriceList
  pub is_current : Bool

abbrev pub is_id : Option PriceList → PriceList → Bool
is_id none v = false
is_id (some current) v = v.id == current.id

-- `list_history`
unfoldable pub list_history : Text → Text → Instant → List PriceList → List HistoryRow
unfolding newest_first select_current_version text_eq
list_history provider model now rows =
    let versions = newest_first (filter (has_key provider model) rows) in
    map (λ v. record { version = v; is_current = is_id (select_current_version versions now) v })
      versions
