-- ===== src/Config.antt =====
-- `Settings` of credbroker/config.py, the fields that the modelled code reads. The delays, floats
-- of seconds in the source, are counted in microseconds.
use credbroker.Common.{ℕ, Text}

pub record Settings : Type 0 where
  pub public_base_url : Text
  pub google_client_id : Text
  pub google_client_secret : Text
  pub oauth_state_secret : Text
  pub oauth_state_ttl_seconds : ℕ
  pub kms_key_id : Text
  pub aws_region : Text
  pub local_master_key_b64 : Text
  pub grant_token_ttl_seconds : ℕ
  pub jwt_private_key_pem : Text
  pub jwt_public_key_pem : Text
  pub jwt_issuer : Text
  pub max_active_grants_per_agent_scope : ℕ
  pub idempotency_window_seconds : ℕ
  pub outbound_max_retries : ℕ
  pub outbound_base_delay_seconds : ℕ
  pub circuit_failure_threshold : ℕ
  pub circuit_reset_seconds : ℕ
  pub grants_per_minute_per_agent : ℕ
  pub invokes_per_minute_per_agent : ℕ
  pub drive_api_base_url : Text
  pub console_token : Text
