-- ===== src/Console/Api.antt =====
-- credbroker/console/api.py: the routes of the operator's API. Times are left as numbers where the
-- source writes them in ISO 8601.
pub mod Keeping
use credbroker.Common.{
  ℕ, Bool, true, ◌&&◌, Option, none, some, List, map, codes, take, leb, if◌then◌else◌,
}
use credbroker.Console.Order.{order_by, order_by_desc}
use credbroker.Demo.Seed.{Seeded, seed_demo, insert_agent}
use credbroker.Errors.{Exn, broker, provider_call}
use credbroker.Exec.{Result, ok, err, pure, raise, attempt, ◌>>=◌, ◌>>◌}
use credbroker.Grants.Service.{IssuedGrant, request_grant}
use credbroker.Grants.Service as GrantsService
use credbroker.Http.{HttpReply, answered, http_exception}
use credbroker.Invoke.Outcome.{InvokeOutcome}
use credbroker.Invoke.Service.{invoke}
use credbroker.Models.{ConnectedAccount, AgentIdentity, Grant, ToolCallAuditLog}
use credbroker.Tools.{ToolAdapter, tool_registry}
use credbroker.World.{Outside, M, await, draw, utcnow, query, assign, commit, in_session}
use credbroker.Console.Views.{
  AccountDict, AgentCreateRequest, AgentDict, AuditDict, GrantCreateRequest, GrantDict,
  GrantPayload, InvokeRequest, ToolDict, error_status, grant_status,
}
use credbroker.Console.State.{AppState}

module _ (o : Outside) where
  -- `_http_error`, on what is a `CredBrokerError`; any other exception goes on
  unfoldable pub raise_http : {A : Type 0} → Exn → M o (HttpReply A)
  raise_http (broker e m) = pure (http_exception (error_status e) m)
  raise_http (provider_call m status) = pure (http_exception 400 m)
  raise_http e = raise e

  tool_dict : ToolAdapter → ToolDict
  tool_dict tool = record {
    name = tool.name;
    provider = tool.provider;
    scope = tool.scope;
    side_effectful = tool.side_effectful;
  }

  -- `_agent_dict`
  unfoldable pub agent_dict : AgentIdentity → AgentDict
  agent_dict agent = record {
    id = o.uuid_str agent.id;
    user_id = o.uuid_str agent.user_id;
    name = agent.name;
    allowed_scopes = agent.allowed_scopes;
    created_at = agent.created_at;
  }

  account_dict : ConnectedAccount → AccountDict
  account_dict account = record {
    id = o.uuid_str account.id;
    user_id = o.uuid_str account.user_id;
    provider = account.provider;
    scopes_granted = account.scopes_granted;
    expires_at = account.expires_at;
    created_at = account.created_at;
  }

  unfoldable pub grant_dict : ℕ → Grant → GrantDict
  grant_dict now grant = record {
    id = o.uuid_str grant.id;
    agent_id = o.uuid_str grant.agent_id;
    connected_account_id = o.uuid_str grant.connected_account_id;
    tool_name = grant.tool_name;
    scope = grant.scope;
    issued_at = grant.issued_at;
    expires_at = grant.expires_at;
    revoked_at = grant.revoked_at;
    status = grant_status grant now;
  }

  unfoldable pub audit_dict : ToolCallAuditLog → AuditDict
  audit_dict row = record {
    id = o.uuid_str row.id;
    grant_id = o.uuid_str row.grant_id;
    tool_name = row.tool_name;
    arguments_hash = row.arguments_hash;
    status = row.status;
    latency_ms = row.latency_ms;
    called_at = row.called_at;
  }

  -- `Query(50, ge=1, le=500)`, with what follows it where the limit is in range; the detail stands for
  -- the list of errors that FastAPI writes
  with_limit : {A : Type 0} → Option ℕ → (ℕ → M o (HttpReply A)) → M o (HttpReply A)
  with_limit none rest = rest 50
  with_limit (some limit) rest =
      if leb 1 limit && leb limit 500
      then rest limit
      else pure (http_exception 422 (codes "limit must be between 1 and 500"))

  module _ (state : AppState) where
    unfoldable pub list_tools : M o (HttpReply (List ToolDict))
    unfolding tool_dict
    list_tools = pure (answered (map tool_dict (tool_registry state.settings)))

    unfoldable pub list_agents : M o (HttpReply (List AgentDict))
    list_agents = in_session o (do
      agents ← query o λ db. order_by (λ (a : AgentIdentity). a.created_at) db.agents
      pure (answered (map agent_dict agents)))

    -- `body.user_id or uuid.uuid4()`
    owner : Option ℕ → M o ℕ
    owner none = draw o
    owner (some user_id) = pure user_id

    unfoldable pub create_agent : AgentCreateRequest → M o (HttpReply AgentDict)
    unfolding owner
    create_agent body = do
      user_id ← owner body.user_id
      in_session o (do
        id ← draw o
        created_at ← utcnow o
        let agent : AgentIdentity = record {
          id = id;
          user_id = user_id;
          name = body.name;
          allowed_scopes = body.allowed_scopes;
          created_at = created_at;
        }
        assign o (insert_agent agent)
        await o
        commit o
        pure (answered (agent_dict agent)))

    unfoldable pub list_accounts : M o (HttpReply (List AccountDict))
    unfolding account_dict
    list_accounts = in_session o (do
      accounts ← query o λ db. order_by (λ (a : ConnectedAccount). a.created_at) db.accounts
      pure (answered (map account_dict accounts)))

    -- `list_grants`, for a limit in range
    unfoldable pub recent_grants : ℕ → M o (HttpReply (List GrantDict))
    recent_grants limit = in_session o (do
      grants ← query o λ db. take limit (order_by_desc (λ (g : Grant). g.issued_at) db.grants)
      now ← utcnow o
      pure (answered (map (grant_dict now) grants)))

    unfoldable pub list_grants : Option ℕ → M o (HttpReply (List GrantDict))
    unfolding with_limit
    list_grants limit = with_limit limit recent_grants

    unfoldable pub granted : Result IssuedGrant → M o (HttpReply GrantPayload)
    unfolding raise_http
    granted (err e) = raise_http e
    granted (ok issued) = pure (
        answered (record {
          grant_id = o.uuid_str issued.grant.id;
          grant_token = issued.token;
          expires_at = issued.grant.expires_at;
        }))

    unfoldable pub create_grant : GrantCreateRequest → M o (HttpReply GrantPayload)
    unfolding granted
    create_grant body =
        attempt
          (in_session o (
            request_grant o state.settings state.grant_cache state.rate_limiter body.agent_id
              body.tool_name body.requested_scope))
          granted

    revocation : Result Grant → M o (HttpReply Bool)
    unfolding raise_http
    revocation (err e) = raise_http e
    revocation (ok grant) = pure (answered true)

    unfoldable pub revoke_grant : ℕ → M o (HttpReply Bool)
    unfolding revocation
    revoke_grant grant_id =
        attempt (in_session o (GrantsService.revoke_grant o state.grant_cache grant_id)) revocation

    unfoldable pub invoke_tool : InvokeRequest → M o (HttpReply InvokeOutcome)
    invoke_tool body = do
      outcome ←
          invoke o state.invoke_service body.grant_token body.tool_name body.arguments
            body.idempotency_key
      pure (answered outcome)

    unfoldable pub demo_seed : M o (HttpReply Seeded)
    demo_seed = do seeded ← in_session o (seed_demo o); pure (answered seeded)

    -- `list_audit`, for a limit in range
    unfoldable pub recent_audit : ℕ → M o (HttpReply (List AuditDict))
    recent_audit limit = in_session o (do
      rows ←
          query o
            λ db. take limit (order_by_desc (λ (r : ToolCallAuditLog). r.called_at) db.audit_log)
      pure (answered (map audit_dict rows)))

    unfoldable pub list_audit : Option ℕ → M o (HttpReply (List AuditDict))
    unfolding with_limit
    list_audit limit = with_limit limit recent_audit
