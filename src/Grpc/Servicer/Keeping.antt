-- ===== src/Grpc/Servicer/Keeping.antt =====
-- What the grant service, an invocation, sessions and events keep, the RPCs keep.
use credbroker.Common.{ℕ, Text, Option, none, some}
use credbroker.Errors.{BrokerError, broker, grant_not_found}
use credbroker.Exec.{Result, ok, err}
use credbroker.Exec.Keeps.{Keeps}
use credbroker.Grants.Service.{IssuedGrant, request_grant, revoke_grant}
use credbroker.Grpc.Messages.{
  GrantRequest, InvokeRequest, RevokeRequest, StatusCode, Reply, or_none,
}
use credbroker.Grpc.Servicer.{
  CredBrokerServicer, abort, unhandled, rpc_error_guard, with_uuid, parse_uuid, grant_denied,
  grant_reply, rpc_request_grant, invoke_reply, rpc_invoke_tool, revoke_reply, rpc_revoke_grant,
}
use credbroker.Invoke.Outcome.{InvokeOutcome}
use credbroker.Invoke.Service.{invoke}
use credbroker.Models.{Grant, Status}
use credbroker.World.{World, Outside, M}
use credbroker.World.Trace.{Frame, OnTrace, AnyEvents, any_event, silent}

module _ (o : Outside) {I : World o.redis.Store → Type 0} (frame : Frame o I) where
  open o.redis use {Store}

  abbrev P : World Store → Type 0
  P = OnTrace I AnyEvents

  Keeps-abort : {A : Type 0} (c : StatusCode) (d : Text) → Keeps P (abort o {A = A} c d)
  unfolding abort
  Keeps-abort c d = search (silent)

  Keeps-unhandled : {A : Type 0} (r : Result (Reply A)) → Keeps P (unhandled o r)
  unfolding unhandled
  Keeps-unhandled (ok reply) = search (silent)
  Keeps-unhandled (err e) = search Keeps-abort

  Keeps-rpc_error_guard :
      {A : Type 0} (m : M o (Reply A)) → Keeps P m → Keeps P (rpc_error_guard o m)
  unfolding rpc_error_guard
  Keeps-rpc_error_guard m k = search (silent, Keeps-unhandled)

  Keeps-with_uuid :
      {A : Type 0} (field : Text) (rest : ℕ → M o (Reply A)) (id : Option ℕ)
      → ((n : ℕ) → Keeps P (rest n))
      → Keeps P (with_uuid o field rest id)
  unfolding with_uuid
  Keeps-with_uuid field rest none k = search Keeps-abort
  Keeps-with_uuid field rest (some id) k = k id

  module _ (servicer : CredBrokerServicer) where
    Keeps-grant_denied :
        (e : BrokerError) (m : Text) (code : Option StatusCode)
        → Keeps P (grant_denied o servicer e m code)
    unfolding grant_denied
    Keeps-grant_denied e m none = search (silent)
    Keeps-grant_denied e m (some code) = search (silent, any_event, Keeps-abort)

    Keeps-grant_reply : (r : Result IssuedGrant) → Keeps P (grant_reply o servicer r)
    unfolding grant_reply
    Keeps-grant_reply (err (broker e m)) = search Keeps-grant_denied
    Keeps-grant_reply (err e) = search (silent)
    Keeps-grant_reply (ok issued) = search (silent, any_event)

    Keeps-invoke_reply :
        (label : Text) (outcome : InvokeOutcome) (status : Status)
        → Keeps P (invoke_reply o servicer label outcome status)
    unfolding invoke_reply
    Keeps-invoke_reply label outcome Status.denied = search Keeps-abort
    Keeps-invoke_reply label outcome Status.failed = search Keeps-abort
    Keeps-invoke_reply label outcome Status.success = search (silent, any_event)

    Keeps-revoke_reply : (r : Result Grant) → Keeps P (revoke_reply o servicer r)
    unfolding revoke_reply
    Keeps-revoke_reply (err (broker grant_not_found m)) = search Keeps-abort
    Keeps-revoke_reply (err e) = search (silent)
    Keeps-revoke_reply (ok grant) = search (silent, any_event)

    pub Keeps-rpc_request_grant :
        (request : GrantRequest)
        → ((agent_id : ℕ) (tool scope : Text)
            → Keeps P (
                request_grant o servicer.settings servicer.grant_cache servicer.rate_limiter
                  agent_id tool scope))
        → Keeps P (rpc_request_grant o servicer request)
    unfolding rpc_request_grant parse_uuid
    Keeps-rpc_request_grant request k =
        search (silent, Keeps-rpc_error_guard, Keeps-with_uuid, Keeps-grant_reply, k) depth 10

    pub Keeps-rpc_invoke_tool :
        (request : InvokeRequest)
        → Keeps P (
            invoke o servicer.invoke_service request.grant_token request.tool_name request.arguments
              (or_none request.idempotency_key))
        → Keeps P (rpc_invoke_tool o servicer request)
    unfolding rpc_invoke_tool
    Keeps-rpc_invoke_tool request k =
        Keeps-rpc_error_guard _ (search (silent, any_event, Keeps-invoke_reply))

    pub Keeps-rpc_revoke_grant :
        (request : RevokeRequest)
        → ((id : ℕ) → Keeps P (revoke_grant o servicer.grant_cache id))
        → Keeps P (rpc_revoke_grant o servicer request)
    unfolding rpc_revoke_grant parse_uuid
    Keeps-rpc_revoke_grant request k =
        search (silent, Keeps-rpc_error_guard, Keeps-with_uuid, Keeps-revoke_reply, k) depth 10
