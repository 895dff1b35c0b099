-- ===== src/DeviceFlow/Tables.antt =====
-- The rows of src/ai_api/services/device_flow.py, and a new one.
use ai_api.Base.{
  is_none, ℕ, zero, suc, ◌+◌, ◌*◌, Bool, true, false, Option, none, some, List, [], if◌then◌else◌,
  get,
}
use ai_api.Models.{Text, Instant, second}
use ai_api.Allocations.{Store}

pub data DeviceAuthStatus : Type 0 where
  pending approved denied expired : DeviceAuthStatus

abbrev pub is_pending : DeviceAuthStatus → Bool
is_pending DeviceAuthStatus.pending = true
is_pending _ = false

pub record DeviceAuthorization : Type 0 where
  pub device_code : ℕ
  pub user_code : ℕ
  pub status : DeviceAuthStatus
  pub device_label : Option Text
  pub member_id : Option ℕ
  pub allocation_id : Option ℕ
  pub credential_id : Option ℕ
  pub encrypted_token : Option Text
  pub created_at : Instant
  pub expires_at : Instant
  pub approved_at : Option Instant
  pub last_polled_at : Option Instant
  pub poll_interval : ℕ

abbrev pub device_key : DeviceAuthorization → ℕ
device_key r = r.device_code

abbrev pub user_key : DeviceAuthorization → ℕ
user_key r = r.user_code

pub record DeviceDb : Type 0 where
  pub authorizations : List DeviceAuthorization
  pub store : Store

abbrev expires_in : ℕ
expires_in = 600

-- `label or None`
abbrev pub non_empty : Option Text → Option Text
non_empty (some []) = none
non_empty label = label

-- the codes that `_gen_user_code` returns, one after another: the first that no row has, or the sixth
pub pick_user_code : ℕ → (ℕ → ℕ) → List DeviceAuthorization → ℕ
pick_user_code zero codes rows = codes 0
pick_user_code (suc n) codes rows =
    let later = pick_user_code n (λ i. codes (suc i)) rows in
    if is_none (get user_key (codes 0) rows) then codes 0 else later

unfoldable pub new_authorization : ℕ → ℕ → Option Text → Instant → DeviceAuthorization
new_authorization device_code user_code label now = record {
  device_code = device_code;
  user_code = user_code;
  status = DeviceAuthStatus.pending;
  device_label = label;
  member_id = none;
  allocation_id = none;
  credential_id = none;
  encrypted_token = none;
  created_at = now;
  expires_at = now + expires_in * second;
  approved_at = none;
  last_polled_at = none;
  poll_interval = 5;
}
