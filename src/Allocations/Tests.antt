-- ===== src/Allocations/Tests.antt =====
-- A store with two allocations, and runs of their life cycle.
use ai_api.Base.{ℕ, ◌≡◌, refl, false, none, some, [], ◌∷◌, get}
use ai_api.Base.Int.{pos}
use ai_api.Models.{Allocation, AllocationStatus, AllocationOrigin}
use ai_api.Allocations.{Store, allocation_id, Request, Fresh}
use ai_api.Allocations.Lifecycle.{
  pause_op, resume_op, revoke_op, create_op, apply_all, revoked_is_final,
}

abbrev row : ℕ → AllocationStatus → Allocation
row i status = record {
  id = i;
  member_id = 7;
  resource_model = 97 ∷ [];
  status = status;
  created_at = 0;
  revoked_at = none;
  quota_tokens_per_month = some (pos 100);
  quota_cost_usd_per_month = none;
  is_service_allocation = false;
  quota_locked = false;
  origin = AllocationOrigin.self_service;
}

abbrev store : Store
store = record {
  members = [];
  allocations = row 1 AllocationStatus.active ∷ row 2 AllocationStatus.revoked ∷ [];
  credentials = [];
  links = [];
  reclaim_locks = [];
  audit_log = [];
}

abbrev request : Request
request = record {
  member_id = none;
  subject = some (98 ∷ []);
  resource_model = 97 ∷ [];
  quota_tokens_per_month = none;
  quota_cost_usd_per_month = none;
  origin = AllocationOrigin.admin;
}

abbrev fresh : Fresh
fresh = record {
  member = 8;
  allocation = 3;
  credential = 4;
  token = record { plaintext = 99 ∷ []; fingerprint = 5 };
}

revoked_is_final_example :
    get allocation_id 2
      (apply_all
        (resume_op 2 ∷ create_op [] fresh 0 request ∷ revoke_op 6 2 ∷ pause_op 2 ∷ [])
        store).allocations
    ≡ some (row 2 AllocationStatus.revoked)
revoked_is_final_example =
    revoked_is_final (resume_op 2 ∷ create_op [] fresh 0 request ∷ revoke_op 6 2 ∷ pause_op 2 ∷ [])
      2 (row 2 AllocationStatus.revoked) store refl refl
