-- ===== src/Grpc/Servicer.antt =====
-- credbroker/grpcserver/servicer.py and server.py: the three RPCs. An RPC ends with a response, or
-- with an abort that carries a status code and its details; an exception is what `context.abort`
-- itself may fail with. Strings of a `Struct` and of the arguments are JSON values.
pub mod Expected
pub mod Keeping
pub mod Replies
pub mod Revocation
use credbroker.Common.{
  ℕ, Text, Bool, true, false, Option, none, some, [], ◌∷◌, ◌++◌, codes, is_some, text_eq,
  if◌then◌else◌,
}
use credbroker.Config.{Settings}
use credbroker.Errors.{
  BrokerError, unknown_agent, unknown_tool, policy_denied, grant_scope_mismatch,
  no_connected_account, concurrency_limit, rate_limited, Exn, broker, grant_not_found, other,
}
use credbroker.Errors
use credbroker.Exec.{Result, ok, err, pure, raise, lift, attempt, ◌>>=◌, ◌>>◌}
use credbroker.Grants.Service.{IssuedGrant, request_grant, revoke_grant}
use credbroker.Invoke.Outcome.{InvokeOutcome, InvokeService, Reason}
use credbroker.Invoke.Service.{invoke}
use credbroker.Json.{Json, Fields, obj, end}
use credbroker.Models.{Grant, Status}
use credbroker.Tools.{find_tool, tool_registry, truthy}
use credbroker.World.{Outside, M, await, emit, in_session, counted, observed}
use credbroker.Grpc.Messages.{
  GrantRequest, GrantResponse, InvokeRequest, InvokeResponse, Reply, RevokeRequest, RevokeResponse,
  StatusCode, aborted, error_name, error_or, grant_error_code, internal, or_none, parse_result,
  response, status_text,
}

-- The collaborators of the servicer: `grant_cache` and `rate_limiter` say which were injected.
pub record CredBrokerServicer : Type 0 where
  pub settings : Settings
  pub grant_cache : Bool
  pub rate_limiter : Bool
  pub invoke_service : InvokeService

-- `build_grpc_server` injects all of them.
abbrev pub build_grpc_server : Settings → CredBrokerServicer
build_grpc_server settings = record {
  settings = settings;
  grant_cache = true;
  rate_limiter = true;
  invoke_service = record {
    settings = settings;
    grant_cache = true;
    rate_limiter = true;
    idempotency_store = true;
  };
}

module _ (o : Outside) where
  -- `context.abort`, which raises what ends the call
  unfoldable pub abort : {A : Type 0} → StatusCode → Text → M o (Reply A)
  abort code details = do await o; pure (aborted code details)

  abbrev pub internal_error : Text
  internal_error = codes "internal error"

  unhandled : {A : Type 0} → Result (Reply A) → M o (Reply A)
  unhandled (ok reply) = pure reply
  unhandled (err e) = abort StatusCode.internal internal_error

  -- `_rpc_error_guard`
  unfoldable pub rpc_error_guard : {A : Type 0} → M o (Reply A) → M o (Reply A)
  unfolding unhandled
  rpc_error_guard method = attempt method unhandled

  -- `_parse_uuid`, with what follows it where the text is a UUID
  with_uuid : {A : Type 0} → Text → (ℕ → M o (Reply A)) → Option ℕ → M o (Reply A)
  with_uuid field rest none =
      abort StatusCode.invalid_argument (field ++ codes " must be a valid UUID")
  with_uuid field rest (some id) = rest id

  unfoldable pub parse_uuid : {A : Type 0} → Text → Text → (ℕ → M o (Reply A)) → M o (Reply A)
  unfolding with_uuid
  parse_uuid raw field rest = with_uuid field rest (o.uuid_parse raw)

  module _ (servicer : CredBrokerServicer) where
    -- The `except _GRANT_ERRORS` clause of `RequestGrant`.
    grant_denied : BrokerError → Text → Option StatusCode → M o (Reply GrantResponse)
    grant_denied e m none = raise (broker e m)
    grant_denied e m (some code) = do
      emit o (counted (codes "grant_denials") (error_name e ∷ []))
      abort code m

    grant_reply : Result IssuedGrant → M o (Reply GrantResponse)
    unfolding grant_denied
    grant_reply (err (broker e m)) = grant_denied e m (grant_error_code e)
    grant_reply (err e) = raise e
    grant_reply (ok issued) = do
      emit o (counted (codes "grants_issued") (issued.grant.tool_name ∷ issued.grant.scope ∷ []))
      pure (
          response (record {
            grant_token = issued.token;
            expires_at = issued.grant.expires_at;
            grant_id = o.uuid_str issued.grant.id;
          }))

    -- `RequestGrant`
    unfoldable pub rpc_request_grant : GrantRequest → M o (Reply GrantResponse)
    unfolding grant_reply
    rpc_request_grant request = rpc_error_guard (
        parse_uuid request.agent_id (codes "agent_id") λ agent_id.
          attempt
            (in_session o (
              request_grant o servicer.settings servicer.grant_cache servicer.rate_limiter agent_id
                request.tool_name request.requested_scope))
            grant_reply)

    -- Only registered names become labels.
    tool_label : Text → Text
    tool_label tool_name =
        if is_some (find_tool tool_name (tool_registry servicer.settings))
        then tool_name
        else codes "unknown"

    denied_code : Option Reason → StatusCode
    denied_code (some Reason.rate_limited) = StatusCode.resource_exhausted
    denied_code _ = StatusCode.permission_denied

    -- What the wire gets for an outcome, by its status.
    invoke_reply : Text → InvokeOutcome → Status → M o (Reply InvokeResponse)
    unfolding denied_code
    invoke_reply label outcome Status.denied =
        abort (denied_code outcome.denied_reason)
          (error_or outcome.error (codes "invocation denied"))
    invoke_reply label outcome Status.failed =
        abort StatusCode.unavailable (error_or outcome.error (codes "tool call failed"))
    invoke_reply label outcome Status.success = do
      emit o (observed (codes "invoke_latency") (label ∷ []) outcome.latency_ms)
      result ← lift (parse_result outcome.result)
      pure (response (record { result = result; status = status_text outcome.status }))

    -- `InvokeTool`
    unfoldable pub rpc_invoke_tool : InvokeRequest → M o (Reply InvokeResponse)
    unfolding tool_label invoke_reply
    rpc_invoke_tool request = rpc_error_guard (do
      outcome ←
          invoke o servicer.invoke_service request.grant_token request.tool_name request.arguments
            (or_none request.idempotency_key)
      let label = tool_label request.tool_name
      emit o (counted (codes "invocations") (label ∷ status_text outcome.status ∷ []))
      invoke_reply label outcome outcome.status)

    -- The `except GrantNotFoundError` clause of `RevokeGrant`, and what follows it.
    revoke_reply : Result Grant → M o (Reply RevokeResponse)
    revoke_reply (err (broker grant_not_found m)) = abort StatusCode.not_found m
    revoke_reply (err e) = raise e
    revoke_reply (ok grant) = do
      emit o (counted (codes "grants_revoked") [])
      pure (response (record { revoked = true }))

    -- `RevokeGrant`
    unfoldable pub rpc_revoke_grant : RevokeRequest → M o (Reply RevokeResponse)
    unfolding revoke_reply
    rpc_revoke_grant request = rpc_error_guard (
        parse_uuid request.grant_id (codes "grant_id") λ grant_id.
          attempt (in_session o (revoke_grant o servicer.grant_cache grant_id)) revoke_reply)
