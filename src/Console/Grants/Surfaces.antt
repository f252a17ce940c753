-- ===== src/Console/Grants/Surfaces.antt =====
-- The console and the gRPC service issue the same grants.
use credbroker.Common.{ℕ, ◌≡◌, ◌≢◌, ◌↔◌, refl, ap, sym, ◌∙◌, Text, true, none, some}
use credbroker.Config.{Settings}
use credbroker.Console.Api.{granted, raise_http, create_grant}
use credbroker.Console.State.{AppState}
use credbroker.Console.Views.{GrantCreateRequest, GrantPayload}
use credbroker.Errors.{broker, provider_call}
use credbroker.Exec.{Result, ok, err, ok-inj, attempt, ◌>>=◌}
use credbroker.Grants.Service.{IssuedGrant, request_grant}
use credbroker.Grpc.Servicer.{rpc_request_grant}
use credbroker.Grpc.Messages.{Reply, response, GrantRequest, GrantResponse}
use credbroker.Grpc.Servicer.Replies.{rpc_request_grant-Answers}
use credbroker.Grpc.Servicer.Expected.{expect_grant, expect_code, expected_code}
use credbroker.Process.{build_servers}
use credbroker.World.Returns.{opened, in_session-result}
use credbroker.Http.{HttpReply, answered}
use credbroker.World.{World, Outside, in_session}

module _ (o : Outside) (token id : Text) (expires_at : ℕ) where
  open o.redis use {Store}

  abbrev pub on_wire : Reply GrantResponse
  on_wire = response (record { grant_token = token; expires_at = expires_at; grant_id = id })

  abbrev pub on_page : Result (HttpReply GrantPayload)
  on_page = ok (answered (record { grant_id = id; grant_token = token; expires_at = expires_at }))

  code_refused : (m : Text) (code : _) → expect_code o m code ≢ on_wire
  code_refused m none e = cc
  code_refused m (some code) e = cc

  same_grant :
      (state : AppState) (r : Result IssuedGrant) (w : World Store)
      → (expect_grant o r ≡ on_wire) ↔ ((granted o state r w).0 ≡ on_page)
  unfolding granted raise_http ◌>>=◌
  same_grant state (ok issued) w = (λ e. cc, λ e. cc)
  same_grant state (err (broker x m)) w =
      (λ e. absurd (code_refused m (expected_code x) e), λ e. cc)
  same_grant state (err (provider_call m s)) w = (λ e. cc, λ e. cc)
  same_grant state (err x) w = (λ e. cc, λ e. cc)

module _ (o : Outside) (no_fault : (n : ℕ) → o.fault n ≡ none) where
  open o.redis use {Store}

  create_grant-run :
      (state : AppState) (agent_id : ℕ) (tool_name scope : Text) (w : World Store)
      → let body : GrantCreateRequest = record {
        agent_id = agent_id;
        tool_name = tool_name;
        requested_scope = scope;
      } in
        let r =
          (request_grant o state.settings state.grant_cache state.rate_limiter agent_id tool_name
            scope
            (opened w)).0 in
        (u : World Store) × ((create_grant o state body w).0 ≡ (granted o state r u).0)
  unfolding create_grant attempt
  create_grant-run state agent_id tool_name scope w =
      let service =
        request_grant o state.settings state.grant_cache state.rate_limiter agent_id tool_name
          scope in
      let u = (in_session o service w).1 in
      (u, ap (λ r. (granted o state r u).0) (in_session-result o no_fault service w))

  -- The two servers that the process builds over one Redis client issue the same grants: from the
  -- same world, whatever other tasks do and where no await fails, a request of an agent is answered
  -- with a token, an expiry and an id by the console exactly where it is by the gRPC service.
  pub create_grant-Agrees :
      (settings : Settings) (agent_id expires_at : ℕ) (raw tool_name scope token id : Text)
      (w : World Store)
      → o.uuid_parse raw ≡ some agent_id
      → ((rpc_request_grant o
            (build_servers settings).grpc_server
            (record { agent_id = raw; tool_name = tool_name; requested_scope = scope })
            w).0
          ≡ ok (on_wire o token id expires_at))
        ↔ ((create_grant o
              (build_servers settings).http_app
              (record { agent_id = agent_id; tool_name = tool_name; requested_scope = scope })
              w).0
            ≡ on_page o token id expires_at)
  create_grant-Agrees settings agent_id expires_at raw tool_name scope token id w parsed =
      let request : GrantRequest = record {
        agent_id = raw;
        tool_name = tool_name;
        requested_scope = scope;
      } in
      let app = (build_servers settings).http_app in
      let r = (request_grant o settings true true agent_id tool_name scope (opened w)).0 in
      let wire : (rpc_request_grant o (build_servers settings).grpc_server request w).0
          ≡ ok (expect_grant o r) =
        rpc_request_grant-Answers o no_fault (build_servers settings).grpc_server request w
        ∙ rw parsed refl in
      let (u, page) = create_grant-run app agent_id tool_name scope w in
      let same = same_grant o token id expires_at app r u in
      (λ e. page ∙ same.0 (ok-inj (sym wire ∙ e)), λ e. wire ∙ ap ok (same.1 (sym page ∙ e)))
