-- ===== src/Console/Views.antt =====
-- credbroker/console/api.py: the status of an error, the comparison of tokens, and what the routes take
-- and answer with.
use credbroker.Common.{
  ℕ, Text, Bool, true, ◌&&◌, Option, List, [], ◌∷◌, codes, leb, ltb, is_some, text_eq,
  if◌then◌else◌,
}
use credbroker.Errors.{
  BrokerError, policy_denied, grant_scope_mismatch, grant_revoked, grant_expired,
  grant_token_invalid, rate_limited, concurrency_limit, unknown_agent, unknown_tool,
  grant_not_found, no_connected_account, idempotency_conflict, other,
}
use credbroker.Exec.{Result, ok, err}
use credbroker.Json.{Fields}
use credbroker.Models.{Grant, Status}

-- `_ERROR_STATUS.get(type(exc), 400)`
abbrev pub error_status : BrokerError → ℕ
error_status policy_denied = 403
error_status grant_scope_mismatch = 403
error_status grant_revoked = 403
error_status grant_expired = 403
error_status grant_token_invalid = 403
error_status rate_limited = 429
error_status concurrency_limit = 429
error_status unknown_agent = 404
error_status unknown_tool = 404
error_status grant_not_found = 404
error_status no_connected_account = 404
error_status idempotency_conflict = 409
error_status _ = 400

abbrev pub is_ascii : Text → Bool
is_ascii [] = true
is_ascii (c ∷ t) = ltb c 128 && is_ascii t

-- `hmac.compare_digest` of two `str`, a `TypeError` where one is not ASCII
abbrev pub compare_digest : Text → Text → Result Bool
compare_digest a b =
    if is_ascii a && is_ascii b
    then ok (text_eq a b)
    else err (other (codes "comparing strings with non-ASCII characters is not supported"))

pub record AgentCreateRequest : Type 0 where
  pub name : Text
  pub allowed_scopes : List Text
  pub user_id : Option ℕ

pub record GrantCreateRequest : Type 0 where
  pub agent_id : ℕ
  pub tool_name : Text
  pub requested_scope : Text

pub record InvokeRequest : Type 0 where
  pub grant_token : Text
  pub tool_name : Text
  pub arguments : Fields
  pub idempotency_key : Option Text

pub record ToolDict : Type 0 where
  pub name : Text
  pub provider : Text
  pub scope : Text
  pub side_effectful : Bool

pub record AgentDict : Type 0 where
  pub id : Text
  pub user_id : Text
  pub name : Text
  pub allowed_scopes : List Text
  pub created_at : ℕ

pub record AccountDict : Type 0 where
  pub id : Text
  pub user_id : Text
  pub provider : Text
  pub scopes_granted : List Text
  pub expires_at : Option ℕ
  pub created_at : ℕ

-- The values of a grant's `status`.
pub data GrantStatus : Type 0 where
  active expired revoked : GrantStatus

pub record GrantDict : Type 0 where
  pub id : Text
  pub agent_id : Text
  pub connected_account_id : Text
  pub tool_name : Text
  pub scope : Text
  pub issued_at : ℕ
  pub expires_at : ℕ
  pub revoked_at : Option ℕ
  pub status : GrantStatus

pub record GrantPayload : Type 0 where
  pub grant_id : Text
  pub grant_token : Text
  pub expires_at : ℕ

pub record AuditDict : Type 0 where
  pub id : Text
  pub grant_id : Text
  pub tool_name : Text
  pub arguments_hash : Text
  pub status : Status
  pub latency_ms : ℕ
  pub called_at : ℕ

-- `_grant_status`
unfoldable pub grant_status : Grant → ℕ → GrantStatus
grant_status grant now =
    if is_some grant.revoked_at
    then GrantStatus.revoked
    else if leb grant.expires_at now
    then GrantStatus.expired
    else GrantStatus.active
