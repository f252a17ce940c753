-- ===== src/Console/Routes.antt =====
-- The router of credbroker/console/api.py: every route under /console/api depends on
-- `require_console_auth`.
pub mod Keeping
pub mod Auth
use credbroker.Common.{ℕ, Text, Bool, Option, none, some, List, [], ◌∷◌, codes, if◌then◌else◌}
use credbroker.Config.{Settings}
use credbroker.Console.Api.{
  list_tools, list_agents, create_agent, list_accounts, list_grants, create_grant, revoke_grant,
  invoke_tool, demo_seed, list_audit,
}
use credbroker.Console.State.{AppState}
use credbroker.Console.Views.{
  AgentCreateRequest, GrantCreateRequest, InvokeRequest, ToolDict, AgentDict, AccountDict,
  GrantDict, GrantPayload, AuditDict, compare_digest,
}
use credbroker.Demo.Seed.{Seeded}
use credbroker.Exec.{Result, ok, err, pure, lift, ◌>>=◌}
use credbroker.Http.{HttpReply, answered, http_exception}
use credbroker.Invoke.Outcome.{InvokeOutcome}
use credbroker.World.{Outside, M}

-- The routes, with what they take from the path, the query and the body.
pub data Route : Type 0 where
  get_tools get_agents get_accounts post_seed : Route
  post_agent : AgentCreateRequest → Route
  get_grants get_audit : Option ℕ → Route
  post_grant : GrantCreateRequest → Route
  post_revoke : ℕ → Route
  post_invoke : InvokeRequest → Route

-- What the routes answer with.
pub data Body : Type 0 where
  tools : List ToolDict → Body
  agents : List AgentDict → Body
  agent : AgentDict → Body
  accounts : List AccountDict → Body
  grants : List GrantDict → Body
  grant : GrantPayload → Body
  revoked : Bool → Body
  outcome : InvokeOutcome → Body
  seeded : Seeded → Body
  audit : List AuditDict → Body

abbrev pub unauthorized : HttpReply Body
unauthorized = http_exception 401 (codes "missing or invalid console token")

abbrev as_body : {A : Type 0} → (A → Body) → HttpReply A → HttpReply Body
as_body wrap (answered a) = answered (wrap a)
as_body wrap (http_exception status detail) = http_exception status detail

module _ (o : Outside) where
  body_of : {A : Type 0} → (A → Body) → M o (HttpReply A) → M o (HttpReply Body)
  body_of wrap handler = do reply ← handler; pure (as_body wrap reply)

  -- The handler of a route.
  unfoldable pub handle : AppState → Route → M o (HttpReply Body)
  unfolding body_of
  handle state Route.get_tools = body_of tools (list_tools o state)
  handle state Route.get_agents = body_of agents (list_agents o state)
  handle state Route.get_accounts = body_of accounts (list_accounts o state)
  handle state Route.post_seed = body_of seeded (demo_seed o state)
  handle state (Route.post_agent body) = body_of agent (create_agent o state body)
  handle state (Route.get_grants limit) = body_of grants (list_grants o state limit)
  handle state (Route.get_audit limit) = body_of audit (list_audit o state limit)
  handle state (Route.post_grant body) = body_of grant (create_grant o state body)
  handle state (Route.post_revoke grant_id) = body_of revoked (revoke_grant o state grant_id)
  handle state (Route.post_invoke body) = body_of outcome (invoke_tool o state body)

  -- The header against a configured token, with what follows where they are the same.
  checked_token : Text → Option Text → M o (HttpReply Body) → M o (HttpReply Body)
  checked_token expected none rest = pure unauthorized
  checked_token expected (some token) rest = do
    same ← lift (compare_digest token expected)
    if same then rest else pure unauthorized

  -- `require_console_auth`
  require_console_auth : Text → Option Text → M o (HttpReply Body) → M o (HttpReply Body)
  unfolding checked_token
  require_console_auth [] x_console_token rest = rest
  require_console_auth (c ∷ expected) x_console_token rest =
      checked_token (c ∷ expected) x_console_token rest

  -- A request to the API.
  unfoldable pub serve : AppState → Option Text → Route → M o (HttpReply Body)
  unfolding require_console_auth
  serve state x_console_token route =
      require_console_auth state.settings.console_token x_console_token (handle state route)
