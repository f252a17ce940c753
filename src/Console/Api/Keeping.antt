-- ===== src/Console/Api/Keeping.antt =====
-- What the services keep, the handlers of the operator's API keep.
use credbroker.Common.{ℕ, Option, none, some}
use credbroker.Console.Api.{
  raise_http, with_limit, list_tools, list_agents, owner, create_agent, list_accounts, list_grants,
  recent_grants, granted, create_grant, revocation, revoke_grant, invoke_tool, demo_seed,
  list_audit, recent_audit,
}
use credbroker.Console.State.{AppState}
use credbroker.Console.Views.{AgentCreateRequest, GrantCreateRequest, InvokeRequest}
use credbroker.Demo.Seed.Keeping.{Keeps-insert_agent, Keeps-seed_demo}
use credbroker.Errors.{Exn, broker, provider_call}
use credbroker.Exec.{Result, ok, err}
use credbroker.Exec.Keeps.{Keeps}
use credbroker.Grants.Service as GrantsService
use credbroker.Grants.Service.{IssuedGrant, request_grant}
use credbroker.Http.{HttpReply}
use credbroker.Invoke.Service.{invoke}
use credbroker.Models.{Grant}
use credbroker.World.{World, Outside, M}
use credbroker.World.Trace.{Frame, OnTrace, AnyEvents, silent}

module _ (o : Outside) {I : World o.redis.Store → Type 0} (frame : Frame o I) where
  open o.redis use {Store}

  abbrev P : World Store → Type 0
  P = OnTrace I AnyEvents

  Keeps-raise_http : {A : Type 0} (e : Exn) → Keeps P (raise_http o {A = A} e)
  unfolding raise_http
  Keeps-raise_http (broker e m) = search silent
  Keeps-raise_http (provider_call m status) = search silent
  Keeps-raise_http e = search silent

  Keeps-with_limit :
      {A : Type 0} (limit : Option ℕ) (rest : ℕ → M o (HttpReply A))
      → ((n : ℕ) → Keeps P (rest n))
      → Keeps P (with_limit o limit rest)
  unfolding with_limit
  Keeps-with_limit none rest k = k 50
  Keeps-with_limit (some limit) rest k = search silent

  module _ (state : AppState) where
    pub Keeps-list_tools : Keeps P (list_tools o state)
    unfolding list_tools
    Keeps-list_tools = search silent

    pub Keeps-list_agents : Keeps P (list_agents o state)
    unfolding list_agents
    Keeps-list_agents = search silent depth 8

    Keeps-owner : (user_id : Option ℕ) → Keeps P (owner o state user_id)
    unfolding owner
    Keeps-owner none = search silent
    Keeps-owner (some user_id) = search silent

    pub Keeps-create_agent : (body : AgentCreateRequest) → Keeps P (create_agent o state body)
    unfolding create_agent
    Keeps-create_agent body = search (silent, Keeps-owner, Keeps-insert_agent) depth 12

    pub Keeps-list_accounts : Keeps P (list_accounts o state)
    unfolding list_accounts
    Keeps-list_accounts = search silent depth 8

    Keeps-recent_grants : (limit : ℕ) → Keeps P (recent_grants o state limit)
    unfolding recent_grants
    Keeps-recent_grants limit = search silent depth 8

    pub Keeps-list_grants : (limit : Option ℕ) → Keeps P (list_grants o state limit)
    unfolding list_grants
    Keeps-list_grants limit = Keeps-with_limit limit _ Keeps-recent_grants

    Keeps-granted : (r : Result IssuedGrant) → Keeps P (granted o state r)
    unfolding granted
    Keeps-granted (err e) = Keeps-raise_http e
    Keeps-granted (ok issued) = search silent

    pub Keeps-create_grant :
        (body : GrantCreateRequest)
        → Keeps P (
            request_grant o state.settings state.grant_cache state.rate_limiter body.agent_id
              body.tool_name body.requested_scope)
        → Keeps P (create_grant o state body)
    unfolding create_grant
    Keeps-create_grant body k = search (silent, Keeps-granted)

    Keeps-revocation : (r : Result Grant) → Keeps P (revocation o state r)
    unfolding revocation
    Keeps-revocation (err e) = Keeps-raise_http e
    Keeps-revocation (ok grant) = search silent

    pub Keeps-revoke_grant :
        (id : ℕ)
        → Keeps P (GrantsService.revoke_grant o state.grant_cache id)
        → Keeps P (revoke_grant o state id)
    unfolding revoke_grant
    Keeps-revoke_grant id k = search (silent, Keeps-revocation)

    pub Keeps-invoke_tool :
        (body : InvokeRequest)
        → Keeps P (
            invoke o state.invoke_service body.grant_token body.tool_name body.arguments
              body.idempotency_key)
        → Keeps P (invoke_tool o state body)
    unfolding invoke_tool
    Keeps-invoke_tool body k = search silent

    pub Keeps-demo_seed : Keeps P (demo_seed o state)
    unfolding demo_seed
    Keeps-demo_seed = search (silent, Keeps-seed_demo)

    Keeps-recent_audit : (limit : ℕ) → Keeps P (recent_audit o state limit)
    unfolding recent_audit
    Keeps-recent_audit limit = search silent depth 8

    pub Keeps-list_audit : (limit : Option ℕ) → Keeps P (list_audit o state limit)
    unfolding list_audit
    Keeps-list_audit limit = Keeps-with_limit limit _ Keeps-recent_audit
