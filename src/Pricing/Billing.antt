-- ===== src/Pricing/Billing.antt =====
-- The price that the catalog shows for a model beside that by which a call of it is billed.
use mathlib.Core.Option
use ai_api.Base.{
  ◌≡◌, All, All-weaken, All-append, All-filter, inl, inr, refl, ap, sym, ◌∙◌, true, false, Option,
  none, some, List, [], ◌∷◌, arith, filter, text_eq_sound, text_eq_refl, Bool-cases, Option-cases,
  strip_provider, map,
}
use ai_api.Models.{Text, Instant}
use ai_api.Access.ModelAccess.{ModelCatalog}
use ai_api.Pricing.{
  PriceList, Price, price_of, has_key, select_current_version, lookup_price_for_call,
}
use ai_api.Pricing.Selection.{lookup-select_current_version}
use ai_api.Pricing.Views.{
  CatalogPrice, row_lt, insert_row, sort_rows, catalog_row, orphan_row, catalog_rows,
  list_catalog_prices, Group, is_group, by_key, versions_of, priced_items, current_price_map,
  item_of, price_for_slug, Entry, entry_of, both,
}
use ai_api.Pricing.Groups.{Apart, Apart-group_from, versions_of-by_key, text_eq_sym}

item_of-missing :
    (p m : Text) (now : Instant) (groups : List Group)
    → All (λ h. is_group p m h ≡ false) groups
    → item_of p m (priced_items now groups) ≡ none
unfolding item_of priced_items
item_of-missing p m now [] h = refl
item_of-missing p m now (g ∷ groups) h = ground (arith, h.0, item_of-missing p m now groups h.1)

-- the keys of a group that is found are those looked for
All-same_group :
    (p m : Text) (g : Group) (groups : List Group)
    → is_group p m g ≡ true
    → All (λ h. is_group g.provider g.model h ≡ false) groups
    → All (λ h. is_group p m h ≡ false) groups
All-same_group p m g groups e =
    All-weaken _ _ groups
      (λ h k. ground (arith, k, e, text_eq_sound g.provider p, text_eq_sound g.model m))

item_of-priced_items :
    (p m : Text) (now : Instant) (groups : List Group)
    → Apart groups
    → item_of p m (priced_items now groups)
      ≡ Option.map entry_of (select_current_version (versions_of p m groups) now)
unfolding item_of priced_items versions_of select_current_version
item_of-priced_items p m now [] h = refl
item_of-priced_items p m now (g ∷ groups) h = elim (Bool-cases (is_group p m g)) [
  | inl same ↦ elim (Option-cases (select_current_version g.versions now)) [
    | inl none_of ↦ ground (
      arith,
      same,
      none_of,
      item_of-missing p m now groups (All-same_group p m g groups same h.0),
    )
    | inr (cur, found) ↦ ground (arith, same, found)
  ]
  | inr other ↦ elim (Option-cases (select_current_version g.versions now)) [
    | inl none_of ↦ ground (arith, other, none_of, item_of-priced_items p m now groups h.1)
    | inr (cur, found) ↦ ground (arith, other, found, item_of-priced_items p m now groups h.1)
  ]
]

-- what the catalog shows of a price
abbrev pub shown : Price → Entry
shown price = record {
  input_per_1k = price.input_per_1k;
  output_per_1k = price.output_per_1k;
  cached_input_per_1k = price.cached_input_per_1k;
  unit_price = both price.price_unit price.price_per_unit;
}

shown-price_of :
    (o : Option PriceList) → Option.map entry_of o ≡ Option.map shown (Option.map price_of o)
unfolding entry_of price_of
shown-price_of none = refl
shown-price_of (some row) = refl

-- The price that the catalog shows for a slug is that at which a call made at the same instant is billed, for
-- the provider and the slug without its prefix; it shows none exactly when there is none.
pub price_for_slug-lookup :
    (rows : List PriceList) (now : Instant) (provider slug : Text)
    → price_for_slug (current_price_map rows now) provider slug
      ≡ Option.map shown (lookup_price_for_call provider (strip_provider slug) now rows)
unfolding price_for_slug current_price_map
price_for_slug-lookup rows now provider slug =
    let key = strip_provider slug in
    item_of-priced_items provider key now (by_key rows) (Apart-group_from [] rows tt)
    ∙ ap (λ vs. Option.map entry_of (select_current_version vs now))
        (versions_of-by_key provider key rows)
    ∙ shown-price_of (select_current_version (filter (has_key provider key) rows) now)
    ∙ ap (Option.map shown) (sym (lookup-select_current_version provider key now rows))

-- a group holds the versions of its key
All-versions_of :
    (groups : List Group)
    → Apart groups
    → All (λ g. g.versions ≡ versions_of g.provider g.model groups) groups
unfolding versions_of
All-versions_of [] h = tt
All-versions_of (g ∷ groups) h = (
  ground (arith, text_eq_refl g.provider, text_eq_refl g.model),
  All-weaken2 groups h.0 (All-versions_of groups h.1),
)
  where
    All-weaken2 :
        (hs : List Group)
        → All (λ k. is_group g.provider g.model k ≡ false) hs
        → All (λ k. k.versions ≡ versions_of k.provider k.model groups) hs
        → All (λ k. k.versions ≡ versions_of k.provider k.model (g ∷ groups)) hs
    All-weaken2 [] a b = tt
    All-weaken2 (k ∷ ks) a b = (
      ground (arith, a.0, b.0, text_eq_sym k.provider g.provider, text_eq_sym k.model g.model),
      All-weaken2 ks a.1 b.1,
    )

All-insert_row :
    (P : CatalogPrice → Type 0) (r : CatalogPrice) (rows : List CatalogPrice)
    → P r
    → All P rows
    → All P (insert_row r rows)
unfolding insert_row
All-insert_row P r [] p h = (p, tt)
All-insert_row P r (s ∷ rows) p h = elim (Bool-cases (row_lt s r)) [
  | inl before ↦ rw before (h.0, All-insert_row P r rows p h.1)
  | inr after ↦ rw after (p, h)
]

All-sort_rows :
    (P : CatalogPrice → Type 0) (rows : List CatalogPrice) → All P rows → All P (sort_rows rows)
unfolding sort_rows
All-sort_rows P [] h = tt
All-sort_rows P (r ∷ rows) h = All-insert_row P r (sort_rows rows) h.0 (All-sort_rows P rows h.1)

-- a row of the list shows the price at which a call is billed
abbrev pub Billed : List PriceList → Instant → CatalogPrice → Type 0
Billed prices now r =
    Option.map price_of r.current ≡ lookup_price_for_call r.provider r.model now prices

All-map_rows :
    {A : Type 0} (P : CatalogPrice → Type 0) (Q : A → Type 0) (f : A → CatalogPrice) (xs : List A)
    → ((x : A) → Q x → P (f x))
    → All Q xs
    → All P (map f xs)
All-map_rows P Q f [] h k = tt
All-map_rows P Q f (x ∷ xs) h k = (h x k.0, All-map_rows P Q f xs h k.1)

All-map_each :
    {A : Type 0} (P : CatalogPrice → Type 0) (f : A → CatalogPrice) (xs : List A)
    → ((x : A) → P (f x))
    → All P (map f xs)
All-map_each P f [] h = tt
All-map_each P f (x ∷ xs) h = (h x, All-map_each P f xs h)

-- Every row of the list of prices, of a model of the catalog or of a priced key that the catalog does not
-- have, shows as current the price at which a call of its provider and model is billed at that instant, and
-- none exactly when there is none.
pub list_catalog_prices-lookup :
    (models : List ModelCatalog) (prices : List PriceList) (now : Instant)
    → All
        (λ r. Option.map price_of r.current ≡ lookup_price_for_call r.provider r.model now prices)
        (list_catalog_prices models prices now)
unfolding list_catalog_prices catalog_rows catalog_row orphan_row
list_catalog_prices-lookup models prices now = All-sort_rows (Billed prices now) _ (
    All-append (Billed prices now) _ _
      (All-map_each (Billed prices now) (catalog_row (by_key prices) now) models
        (λ m. billed m.provider (strip_provider m.slug) _ (versions_of-by_key _ _ prices)))
      (All-map_rows (Billed prices now)
        (λ g. g.versions ≡ versions_of g.provider g.model (by_key prices)) (orphan_row now) _
        (λ g e. billed g.provider g.model _ (e ∙ versions_of-by_key _ _ prices))
        (All-filter _ _ (by_key prices)
          (All-versions_of (by_key prices) (Apart-group_from [] prices tt)))))
  where
    billed :
        (p m : Text) (versions : List PriceList)
        → versions ≡ filter (has_key p m) prices
        → Option.map price_of (select_current_version versions now)
          ≡ lookup_price_for_call p m now prices
    billed p m versions e =
        ap (λ vs. Option.map price_of (select_current_version vs now)) e
        ∙ sym (lookup-select_current_version p m now prices)
