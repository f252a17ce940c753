-- ===== src/Grpc/Messages.antt =====
-- credbroker/grpcserver/servicer.py: the messages of the RPCs, status codes, and the conversions between
-- a message's fields and the services' values.
use credbroker.Common.{ℕ, Text, Bool, Option, none, some, [], ◌∷◌, codes, if◌then◌else◌}
use credbroker.Errors.{
  BrokerError, unknown_agent, unknown_tool, policy_denied, grant_scope_mismatch,
  no_connected_account, concurrency_limit, rate_limited, other,
}
use credbroker.Exec.{Result, ok, err}
use credbroker.Json.{Json, Fields, obj, end}
use credbroker.Models.{Status}
use credbroker.Tools.{truthy}

-- The members of `grpc.StatusCode` that the servicer uses.
pub data StatusCode : Type 0 where
  not_found permission_denied failed_precondition resource_exhausted : StatusCode
  invalid_argument unavailable internal : StatusCode

pub data Reply (A : Type 0) : Type 0 where
  response : A → Reply A
  aborted : StatusCode → Text → Reply A

pub record GrantRequest : Type 0 where
  pub agent_id : Text
  pub tool_name : Text
  pub requested_scope : Text

pub record GrantResponse : Type 0 where
  pub grant_token : Text
  pub expires_at : ℕ
  pub grant_id : Text

pub record InvokeRequest : Type 0 where
  pub grant_token : Text
  pub tool_name : Text
  pub arguments : Fields
  pub idempotency_key : Text

pub record InvokeResponse : Type 0 where
  pub result : Fields
  pub status : Text

pub record RevokeRequest : Type 0 where
  pub grant_id : Text

pub record RevokeResponse : Type 0 where
  pub revoked : Bool

-- `_GRANT_ERROR_CODES`
unfoldable pub grant_error_code : BrokerError → Option StatusCode
grant_error_code unknown_agent = some StatusCode.not_found
grant_error_code unknown_tool = some StatusCode.not_found
grant_error_code policy_denied = some StatusCode.permission_denied
grant_error_code grant_scope_mismatch = some StatusCode.permission_denied
grant_error_code no_connected_account = some StatusCode.failed_precondition
grant_error_code concurrency_limit = some StatusCode.resource_exhausted
grant_error_code rate_limited = some StatusCode.resource_exhausted
grant_error_code _ = none

-- `type(exc).__name__` of the errors in that table
abbrev pub error_name : BrokerError → Text
error_name unknown_agent = codes "UnknownAgentError"
error_name unknown_tool = codes "UnknownToolError"
error_name policy_denied = codes "PolicyDeniedError"
error_name grant_scope_mismatch = codes "GrantScopeMismatchError"
error_name no_connected_account = codes "NoConnectedAccountError"
error_name concurrency_limit = codes "ConcurrencyLimitError"
error_name rate_limited = codes "RateLimitedError"
error_name _ = []

-- The values of `InvokeOutcome.status`.
abbrev pub status_text : Status → Text
status_text Status.success = codes "success"
status_text Status.failed = codes "failed"
status_text Status.denied = codes "denied"

-- `request.idempotency_key or None`
abbrev pub or_none : Text → Option Text
or_none [] = none
or_none (c ∷ t) = some (c ∷ t)

-- `outcome.error or default`
abbrev pub error_or : Option Text → Text → Text
error_or none default = default
error_or (some []) default = default
error_or (some (c ∷ t)) default = c ∷ t

-- `json_format.ParseDict` into a `Struct`; what is no `dict` is a `ParseError`
abbrev pub parse_dict : Json → Result Fields
parse_dict (obj fields) = ok fields
parse_dict _ = err (other (codes "ParseError"))

-- `ParseDict(outcome.result or {}, ...)`
abbrev pub parse_result : Option Json → Result Fields
parse_result none = ok end
parse_result (some result) = if truthy result then parse_dict result else ok end
