-- ===== src/Usage/Tests.antt =====
-- Two calls of one allocation, and one whose allocation is gone.
use ai_api.Base.{◌≡◌, refl, ℕ, false, none, some, [], ◌∷◌, ◌*◌}
use ai_api.Models.{Instant, second, MemberStatus, AllocationStatus, AllocationOrigin, CallOutcome}
use ai_api.Usage.{UsageCall, UsageDb, Filters, join_allocations, group_rows, add_row, add_call}
use ai_api.Usage.Reports.{
  by_model, by_allocation, by_member, aggregate_usage, count_unpriced_calls, usage_heatmap,
  insert_bucket, order_buckets,
}
use ai_api.Usage.Conservation.{SameSums, reports_agree}

abbrev hour_long : ℕ
hour_long = 60 * 60 * second

abbrev call : ℕ → Instant → UsageCall
call allocation at = record {
  allocation_id = some allocation;
  model = some (b'm' ∷ []);
  started_at = at;
  outcome = CallOutcome.success;
  total_tokens = some 30;
  prompt_tokens = some 20;
  completion_tokens = some 10;
  cost_usd = none;
  reasoning_tokens = none;
  cached_tokens = none;
}

abbrev db : UsageDb
db = record {
  calls = call 1 0 ∷ call 1 (20 * hour_long) ∷ call 9 (20 * hour_long) ∷ [];
  allocations =
      record {
        id = 1;
        member_id = 7;
        resource_model = b'm' ∷ [];
        status = AllocationStatus.active;
        created_at = 0;
        revoked_at = none;
        quota_tokens_per_month = none;
        quota_cost_usd_per_month = none;
        is_service_allocation = false;
        quota_locked = false;
        origin = AllocationOrigin.admin;
      }
      ∷ [];
  members =
      record { id = 7; email = b'e' ∷ []; status = MemberStatus.active; is_admin = false } ∷ [];
  member_tags = [];
  model_catalog = [];
}

abbrev filters : Filters
filters = record { from_ = 0; to = 100 * hour_long; service_only = false; member_id = none }

unpriced : count_unpriced_calls 7 0 (100 * hour_long) db ≡ 2
unfolding count_unpriced_calls join_allocations
unpriced = refl

-- Thursday at eight, and Friday at four, in UTC+8; the orphaned call is of the map
heat :
    usage_heatmap none 0 (100 * hour_long) db
    ≡ record { weekday = 4; hour = 8; tokens = 30; call_count = 1 }
      ∷ record { weekday = 5; hour = 4; tokens = 60; call_count = 2 }
      ∷ []
unfolding usage_heatmap group_rows add_row add_call order_buckets insert_bucket
heat = refl

reports_agree_example :
    SameSums (aggregate_usage by_model filters db) (aggregate_usage by_allocation filters db)
    × SameSums (aggregate_usage by_member filters db) (aggregate_usage by_allocation filters db)
reports_agree_example = reports_agree filters db (refl, tt)
