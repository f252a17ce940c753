-- ===== src/Console/Routes/Keeping.antt =====
-- What the services keep, a request to the operator's API keeps.
use credbroker.Common.{ℕ, Text, Option, none, some, [], ◌∷◌}
use credbroker.Console.Api.Keeping.{
  Keeps-list_tools, Keeps-list_agents, Keeps-create_agent, Keeps-list_accounts, Keeps-list_grants,
  Keeps-create_grant, Keeps-revoke_grant, Keeps-invoke_tool, Keeps-demo_seed, Keeps-list_audit,
}
use credbroker.Console.Routes.{
  Route, Body, body_of, handle, checked_token, require_console_auth, serve,
}
use credbroker.Console.State.{AppState}
use credbroker.Exec.Keeps.{Keeps}
use credbroker.Grants.Service.{request_grant, revoke_grant}
use credbroker.Http.{HttpReply}
use credbroker.Invoke.Service.{invoke}
use credbroker.Json.{Fields}
use credbroker.World.{World, Outside, M}
use credbroker.World.Trace.{Frame, OnTrace, AnyEvents, silent}

module _ (o : Outside) {I : World o.redis.Store → Type 0} (frame : Frame o I) where
  open o.redis use {Store}

  abbrev P : World Store → Type 0
  P = OnTrace I AnyEvents

  Keeps-body_of :
      {A : Type 0} (wrap : A → Body) (m : M o (HttpReply A))
      → Keeps P m
      → Keeps P (body_of o wrap m)
  unfolding body_of
  Keeps-body_of wrap m k = search silent

  Keeps-require_console_auth :
      (configured : Text) (header : Option Text) (rest : M o (HttpReply Body))
      → Keeps P rest
      → Keeps P (require_console_auth o configured header rest)
  unfolding require_console_auth checked_token
  Keeps-require_console_auth [] header rest k = k
  Keeps-require_console_auth (c ∷ t) none rest k = search silent
  Keeps-require_console_auth (c ∷ t) (some token) rest k = search silent

  module _ (state : AppState)
      (by_request : (agent_id : ℕ) (tool scope : Text)
        → Keeps P (
            request_grant o state.settings state.grant_cache state.rate_limiter agent_id tool
              scope))
      (by_revoke : (id : ℕ) → Keeps P (revoke_grant o state.grant_cache id))
      (by_invoke : (token tool : Text) (arguments : Fields) (key : Option Text)
        → Keeps P (invoke o state.invoke_service token tool arguments key)) where
    Keeps-handle : (route : Route) → Keeps P (handle o state route)
    unfolding handle
    Keeps-handle Route.get_tools = search (Keeps-body_of, Keeps-list_tools, frame)
    Keeps-handle Route.get_agents = search (Keeps-body_of, Keeps-list_agents)
    Keeps-handle Route.get_accounts = search (Keeps-body_of, Keeps-list_accounts)
    Keeps-handle Route.post_seed = search (Keeps-body_of, Keeps-demo_seed)
    Keeps-handle (Route.post_agent body) = search (Keeps-body_of, Keeps-create_agent)
    Keeps-handle (Route.get_grants limit) = search (Keeps-body_of, Keeps-list_grants)
    Keeps-handle (Route.get_audit limit) = search (Keeps-body_of, Keeps-list_audit)
    Keeps-handle (Route.post_grant body) = search (Keeps-body_of, Keeps-create_grant, by_request)
    Keeps-handle (Route.post_revoke id) = search (Keeps-body_of, Keeps-revoke_grant, by_revoke)
    Keeps-handle (Route.post_invoke body) = search (Keeps-body_of, Keeps-invoke_tool, by_invoke)

    pub Keeps-serve : (header : Option Text) (route : Route) → Keeps P (serve o state header route)
    unfolding serve
    Keeps-serve header route =
        Keeps-require_console_auth state.settings.console_token header _ (Keeps-handle route)
