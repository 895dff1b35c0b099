-- ===== src/Usage/Reports.antt =====
-- The reports of src/ai_api/services/usage.py: usage by group, by time and by hour of the week.
use ai_api.Base.{
  or_zero, ℕ, ◌+◌, ◌-◌, ◌*◌, ◌/◌, ◌%◌, Bool, true, false, Option, none, some, List, [], ◌∷◌, ◌++◌,
  map, filter, any, length, if◌then◌else◌, leb, ltb, ◌==◌, ◌&&◌, text_eq,
}
use ai_api.Models.{Text, Instant, second}
use ai_api.Access.ModelAccess.{MemberTag, ModelCatalog}
use ai_api.Usage.{
  UsageCall, UsageDb, Keyed, Grouped, group_rows, order_groups, Joined, Filters, within, base_rows,
  join_allocations,
}

pub data GroupBy : Type 0 where
  by_member by_allocation by_model by_tag by_provider : GroupBy

-- the key of a group: an id, a text, or the missing model of a call
pub data GroupKey : Type 0 where
  of_id : ℕ → GroupKey
  of_text : Text → GroupKey
  no_model : GroupKey

unfoldable pub same_key : GroupKey → GroupKey → Bool
unfolding text_eq
same_key (of_id a) (of_id b) = a == b
same_key (of_text s) (of_text t) = text_eq s t
same_key no_model no_model = true
same_key _ _ = false

abbrev pub model_key : Option Text → GroupKey
model_key none = no_model
model_key (some model) = of_text model

abbrev pub has_slug : Option Text → ModelCatalog → Bool
has_slug none m = false
has_slug (some slug) m = text_eq m.slug slug

-- the rows of a call and its allocation, after the join that a grouping adds
unfoldable pub keyed_rows : GroupBy → UsageDb → Joined → List (Keyed GroupKey)
unfolding text_eq
keyed_rows by_member db j =
    map (λ m. record { key = of_id m.id; call = j.call })
      (filter (λ m. m.id == j.allocation.member_id) db.members)
keyed_rows by_allocation db j = record { key = of_id j.allocation.id; call = j.call } ∷ []
keyed_rows by_model db j = record { key = model_key j.call.model; call = j.call } ∷ []
keyed_rows by_tag db j =
    map (λ r. record { key = of_text r.tag; call = j.call })
      (filter (λ r. r.member_id == j.allocation.member_id) db.member_tags)
keyed_rows by_provider db j =
    map (λ m. record { key = of_text m.provider; call = j.call })
      (filter (has_slug j.call.model) db.model_catalog)

unfoldable pub all_rows : GroupBy → UsageDb → List Joined → List (Keyed GroupKey)
unfolding keyed_rows
all_rows by db [] = []
all_rows by db (j ∷ rows) = keyed_rows by db j ++ all_rows by db rows

-- `aggregate_usage`
unfoldable pub aggregate_usage : GroupBy → Filters → UsageDb → List (Grouped GroupKey)
unfolding same_key all_rows base_rows group_rows order_groups
aggregate_usage by f db = order_groups (group_rows same_key (all_rows by db (base_rows f db)))

abbrev pub tagged : Text → List MemberTag → ℕ → Bool
tagged tag rows member = any (λ r. text_eq r.tag tag && r.member_id == member) rows

-- `aggregate_usage_for_tag_members`
unfoldable pub aggregate_usage_for_tag_members : Text → Filters → UsageDb → List (Grouped GroupKey)
unfolding same_key all_rows base_rows group_rows order_groups text_eq
aggregate_usage_for_tag_members tag f db = order_groups (
    group_rows same_key (
      all_rows by_member db (
        filter (λ j. tagged tag db.member_tags j.allocation.member_id)
          (base_rows (record f { member_id = none }) db))))

abbrev pub is_unpriced : UsageCall → Bool
is_unpriced c = ltb 0 (or_zero c.total_tokens) && or_zero c.cost_usd == 0

-- `count_unpriced_calls`
unfoldable pub count_unpriced_calls : ℕ → Instant → Instant → UsageDb → ℕ
unfolding join_allocations
count_unpriced_calls member from to db = length (
    filter (λ j. within from to j.call && (j.allocation.member_id == member && is_unpriced j.call))
      (join_allocations db.calls db.allocations))

pub data Bucket : Type 0 where
  hour day : Bucket

abbrev pub bucket_length : Bucket → ℕ
bucket_length hour = 60 * 60 * second
bucket_length day = 24 * 60 * 60 * second

-- `date_trunc`; instants count from the first of January 1970
abbrev pub truncated : Bucket → Instant → Instant
truncated b at = at - at % bucket_length b

-- `ORDER BY` the bucket
unfoldable pub insert_bucket : Grouped ℕ → List (Grouped ℕ) → List (Grouped ℕ)
insert_bucket g [] = g ∷ []
insert_bucket g (h ∷ groups) =
    if leb g.key h.key then g ∷ h ∷ groups else h ∷ insert_bucket g groups

unfoldable pub order_buckets : List (Grouped ℕ) → List (Grouped ℕ)
unfolding insert_bucket
order_buckets [] = []
order_buckets (g ∷ groups) = insert_bucket g (order_buckets groups)

abbrev pub of_allocation : Option ℕ → UsageCall → Bool
of_allocation none c = true
of_allocation (some id) c = elim c.allocation_id [ none ↦ false | some a ↦ a == id ]

-- the calls of one member, by the join with the allocations
unfoldable pub calls_of_member : Option ℕ → UsageDb → List UsageCall
unfolding join_allocations
calls_of_member none db = db.calls
calls_of_member (some member) db =
    map (λ j. j.call)
      (filter (λ j. j.allocation.member_id == member) (join_allocations db.calls db.allocations))

-- `usage_timeseries`
unfoldable pub usage_timeseries :
    Option ℕ → Option ℕ → Bucket → Instant → Instant → UsageDb → List (Grouped ℕ)
unfolding calls_of_member group_rows order_buckets
usage_timeseries allocation member bucket from to db = order_buckets (
    group_rows ◌==◌ (
      map (λ c. record { key = truncated bucket c.started_at; call = c })
        (filter (λ c. within from to c && of_allocation allocation c) (calls_of_member member db))))

-- the hours since 1970 in UTC+8
abbrev pub local_hours : Instant → ℕ
local_hours at = (at + 8 * (60 * 60 * second)) / (60 * 60 * second)

-- a cell as its hour of the week, from Sunday on; the first day of 1970 was a Thursday
abbrev pub week_hour : Instant → ℕ
week_hour at = (local_hours at / 24 + 4) % 7 * 24 + local_hours at % 24

-- `HeatCell`
pub record HeatCell : Type 0 where
  pub weekday : ℕ
  pub hour : ℕ
  pub tokens : ℕ
  pub call_count : ℕ

abbrev pub heat_cell : Grouped ℕ → HeatCell
heat_cell g = record {
  weekday = g.key / 24;
  hour = g.key % 24;
  tokens = g.totals.total_tokens;
  call_count = g.totals.call_count;
}

-- `usage_heatmap`
unfoldable pub usage_heatmap : Option ℕ → Instant → Instant → UsageDb → List HeatCell
unfolding group_rows order_buckets
usage_heatmap allocation from to db = map heat_cell (
    order_buckets (
      group_rows ◌==◌ (
        map (λ c. record { key = week_hour c.started_at; call = c })
          (filter (λ c. within from to c && of_allocation allocation c) db.calls))))
