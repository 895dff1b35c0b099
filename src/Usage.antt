-- ===== src/Usage.antt =====
-- src/ai_api/services/usage.py: reports of the usage of tokens, as joins of the call records and sums by group.
-- Costs are in millionths of a dollar. Display names are left out.
pub mod Reports
pub mod Conservation
mod Tests
use ai_api.Base.{
  or_zero, ℕ, suc, ◌+◌, Bool, true, false, Option, none, some, List, [], ◌∷◌, ◌++◌, map, filter,
  if◌then◌else◌, leb, ltb, ◌==◌, ◌&&◌, ◌||◌, text_eq,
}
use ai_api.Models.{Text, Instant, Allocation, Member, CallOutcome, is_success}
use ai_api.Access.ModelAccess.{MemberTag, ModelCatalog}

-- the columns of a call record that the reports read
pub record UsageCall : Type 0 where
  pub allocation_id : Option ℕ
  pub model : Option Text
  pub started_at : Instant
  pub outcome : CallOutcome
  pub total_tokens : Option ℕ
  pub prompt_tokens : Option ℕ
  pub completion_tokens : Option ℕ
  pub cost_usd : Option ℕ
  pub reasoning_tokens : Option ℕ
  pub cached_tokens : Option ℕ

pub record UsageDb : Type 0 where
  pub calls : List UsageCall
  pub allocations : List Allocation
  pub members : List Member
  pub member_tags : List MemberTag
  pub model_catalog : List ModelCatalog

-- the sums of a group: `coalesce(sum(...), 0)`, and `count()`
pub record Totals : Type 0 where
  pub total_tokens : ℕ
  pub prompt_tokens : ℕ
  pub completion_tokens : ℕ
  pub total_cost_usd : ℕ
  pub reasoning_tokens : ℕ
  pub cached_tokens : ℕ
  pub call_count : ℕ

abbrev pub no_totals : Totals
no_totals = record {
  total_tokens = 0;
  prompt_tokens = 0;
  completion_tokens = 0;
  total_cost_usd = 0;
  reasoning_tokens = 0;
  cached_tokens = 0;
  call_count = 0;
}

-- a call on top of the sums of others
unfoldable pub add_call : UsageCall → Totals → Totals
add_call c t = record {
  total_tokens = or_zero c.total_tokens + t.total_tokens;
  prompt_tokens = or_zero c.prompt_tokens + t.prompt_tokens;
  completion_tokens = or_zero c.completion_tokens + t.completion_tokens;
  total_cost_usd = or_zero c.cost_usd + t.total_cost_usd;
  reasoning_tokens = or_zero c.reasoning_tokens + t.reasoning_tokens;
  cached_tokens = or_zero c.cached_tokens + t.cached_tokens;
  call_count = suc t.call_count;
}

-- a row of a join, with the key that it is grouped by
pub record Keyed (K : Type 0) : Type 0 where
  pub key : K
  pub call : UsageCall

-- a group
pub record Grouped (K : Type 0) : Type 0 where
  pub key : K
  pub totals : Totals

module _ {K : Type 0} (same : K → K → Bool) where
  -- a row among the groups of the rows that follow
  unfoldable pub add_row : Keyed K → List (Grouped K) → List (Grouped K)
  unfolding add_call
  add_row r [] = record { key = r.key; totals = add_call r.call no_totals } ∷ []
  add_row r (g ∷ groups) =
      let rest = add_row r groups in
      if same g.key r.key
      then record { key = g.key; totals = add_call r.call g.totals } ∷ groups
      else g ∷ rest

  -- `GROUP BY`
  unfoldable pub group_rows : List (Keyed K) → List (Grouped K)
  unfolding add_row
  group_rows [] = []
  group_rows (r ∷ rows) = add_row r (group_rows rows)

module _ {K : Type 0} where
  -- `ORDER BY` the sum of tokens, the greatest first
  unfoldable pub insert_group : Grouped K → List (Grouped K) → List (Grouped K)
  insert_group g [] = g ∷ []
  insert_group g (h ∷ groups) =
      if leb h.totals.total_tokens g.totals.total_tokens
      then g ∷ h ∷ groups
      else h ∷ insert_group g groups

  unfoldable pub order_groups : List (Grouped K) → List (Grouped K)
  unfolding insert_group
  order_groups [] = []
  order_groups (g ∷ groups) = insert_group g (order_groups groups)

-- a call and its allocation
pub record Joined : Type 0 where
  pub call : UsageCall
  pub allocation : Allocation

abbrev pub is_allocation : Option ℕ → Allocation → Bool
is_allocation none a = false
is_allocation (some id) a = a.id == id

-- `JOIN allocations ON id = call_records.allocation_id`
unfoldable pub join_allocations : List UsageCall → List Allocation → List Joined
join_allocations [] allocations = []
join_allocations (c ∷ calls) allocations =
    map (λ a. record { call = c; allocation = a })
      (filter (is_allocation c.allocation_id) allocations)
    ++ join_allocations calls allocations

-- `base_filters` with `service_only`
pub record Filters : Type 0 where
  pub from_ : Instant
  pub to : Instant
  pub service_only : Bool
  pub member_id : Option ℕ

abbrev pub within : Instant → Instant → UsageCall → Bool
within from to c = is_success c.outcome && (leb from c.started_at && ltb c.started_at to)

abbrev pub is_member : Option ℕ → ℕ → Bool
is_member none member = true
is_member (some id) member = member == id

abbrev pub passes : Filters → Joined → Bool
passes f j =
    within f.from_ f.to j.call
    && (is_member f.member_id j.allocation.member_id
        && (if f.service_only then j.allocation.is_service_allocation else true))

-- the rows that all the reports by group start from
unfoldable pub base_rows : Filters → UsageDb → List Joined
unfolding join_allocations
base_rows f db = filter (passes f) (join_allocations db.calls db.allocations)
