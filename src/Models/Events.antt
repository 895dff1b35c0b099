-- ===== src/Models/Events.antt =====
-- `AuditEventType` of src/ai_api/models/auth_audit.py.
pub data AuditEventType : Type 0 where
  login_success login_failure logout : AuditEventType
  member_created member_disabled member_enabled member_deleted : AuditEventType
  whitelist_added whitelist_removed rule_added rule_removed : AuditEventType
  restriction_added restriction_removed password_changed : AuditEventType
  invitation_issued invitation_used : AuditEventType
  allocation_quarantined allocation_unquarantined anomaly_detector_run : AuditEventType
  quota_pool_rebalanced rebalance_failed pool_exhausted_by_reserved pool_idle : AuditEventType
  member_promoted member_demoted allocation_token_rotated : AuditEventType
  provider_credential_created provider_credential_rotated : AuditEventType
  provider_credential_disabled provider_credential_used_first_time : AuditEventType
  member_tag_added member_tag_removed member_tag_bulk_added : AuditEventType
  model_access_policy_updated : AuditEventType
  self_service_claimed self_service_reclaim_locked self_service_unlocked : AuditEventType
  price_version_added allocation_paused allocation_resumed : AuditEventType
  allocation_cost_quota_updated pool_config_updated anomaly_config_updated : AuditEventType
  responses_upstream_error_burst provider_credential_auth_failed : AuditEventType
  credential_added credential_revoked : AuditEventType
  device_authorization_approved device_authorization_denied : AuditEventType
  credential_scope_added credential_scope_removed credential_renamed : AuditEventType
  responses_tested responses_support_overridden model_tested : AuditEventType
