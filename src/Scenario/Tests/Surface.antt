-- ===== src/Scenario/Tests/Surface.antt =====
-- The theorems at concrete inputs: the gRPC service, and the console beside it.
use credbroker.Broker.{
  ApiCall, request_call, invoke_call, revoke_call, console_call, callback_call, serve_calls,
}
use credbroker.Broker.Bounded.{serve_calls-Bounded}
use credbroker.Console.Routes.{Route}
use credbroker.Grants.Service.Bound.{Bounded}
use credbroker.Common.{
  List, [], ◌∷◌, none, some, ◌≡◌, ◌↔◌, refl, Text, true, some, codes, decimal,
  decimal_value-decimal, ap,
}
use credbroker.Console.Api.{create_grant}
use credbroker.Console.Grants.Surfaces.{create_grant-Agrees, on_page, on_wire}
use credbroker.Exec.{ok}
use credbroker.Grants.Service.{request_grant}
use credbroker.Grpc.Servicer.{
  build_grpc_server, rpc_request_grant, rpc_invoke_tool, rpc_revoke_grant,
}
use credbroker.Grpc.Messages.{
  StatusCode, aborted, GrantRequest, InvokeRequest, RevokeRequest, or_none,
}
use credbroker.Grpc.Servicer.Replies.{rpc_request_grant-Answers, rpc_invoke_tool-Answers}
use credbroker.Grpc.Servicer.Expected.{expect_uuid, expect_grant, expect_outcome}
use credbroker.Grpc.Servicer.Revocation.{rpc_revoke_grant-Refuses}
use credbroker.Invoke.Outcome.{InvokeOutcome}
use credbroker.Invoke.Service.{invoke}
use credbroker.Json.{end}
use credbroker.Process.{build_servers}
use credbroker.Scenario.{
  calm, test_settings, test_grant, start_world, granted_world, test_token, drive_read, read_scope,
}
use credbroker.Scenario.MapRedis.{Keys}
use credbroker.Scenario.Tests.{start-Bounded, calm-Alone, granted_first, granted_nine}
use credbroker.World.{World}
use credbroker.World.Returns.{opened}

abbrev grant_request : GrantRequest
grant_request = record {
  agent_id = decimal 1;
  tool_name = drive_read;
  requested_scope = read_scope;
}

rpc_request_grant-Answers_example :
    (rpc_request_grant calm (build_grpc_server test_settings) grant_request start_world).0
    ≡ ok (
        expect_uuid calm
          (codes "agent_id")
          (λ agent_id.
            expect_grant calm
              (request_grant calm test_settings true true agent_id drive_read read_scope
                (opened start_world)).0)
          (calm.uuid_parse (decimal 1)))
rpc_request_grant-Answers_example =
    rpc_request_grant-Answers calm (λ n. refl) (build_grpc_server test_settings) grant_request
      start_world

abbrev invoke_request : InvokeRequest
invoke_request = record {
  grant_token = test_token;
  tool_name = drive_read;
  arguments = end;
  idempotency_key = codes "key";
}

rpc_invoke_tool-Answers_example :
    (outcome : InvokeOutcome) × ((invoke calm
        (build_grpc_server test_settings).invoke_service
        test_token
        drive_read
        end
        (or_none (codes "key"))
        granted_world).0
      ≡ ok outcome)
    × ((rpc_invoke_tool calm (build_grpc_server test_settings) invoke_request granted_world).0
        ≡ ok (expect_outcome calm outcome))
rpc_invoke_tool-Answers_example =
    rpc_invoke_tool-Answers calm (λ n. refl) (build_grpc_server test_settings) invoke_request
      granted_world

abbrev revocation : RevokeRequest
revocation = record { grant_id = decimal 9 }

-- The world a minute after the revocation, with nothing left in Redis.
abbrev later_world : World Keys
later_world = record granted_world {
  shared = record granted_world.shared {
    now = 1_060_000_000;
    db =
        (rpc_revoke_grant calm (build_grpc_server test_settings) revocation
          granted_world).1.shared.db;
  };
}

rpc_revoke_grant-Refuses_example :
    (code : StatusCode) × (details : Text) × ((rpc_invoke_tool calm
        (build_grpc_server test_settings)
        invoke_request
        later_world).0
      ≡ ok (aborted code details))
rpc_revoke_grant-Refuses_example =
    rpc_revoke_grant-Refuses calm calm-Alone (build_grpc_server test_settings) revocation
      invoke_request test_grant granted_world later_world (ap some (decimal_value-decimal 9))
      granted_nine granted_first refl refl

create_grant-Agrees_example :
    ((rpc_request_grant calm (build_servers test_settings).grpc_server grant_request start_world).0
      ≡ ok (on_wire calm test_token (decimal 9) 1_300_000_000))
    ↔ ((create_grant calm
          (build_servers test_settings).http_app
          (record { agent_id = 1; tool_name = drive_read; requested_scope = read_scope })
          start_world).0
        ≡ on_page calm test_token (decimal 9) 1_300_000_000)
create_grant-Agrees_example =
    create_grant-Agrees calm (λ n. refl) test_settings 1 1_300_000_000 (decimal 1) drive_read
      read_scope test_token (decimal 9) start_world (ap some (decimal_value-decimal 1))

-- An agent and the operator ask for the same grant, and the agent uses and returns its own.
abbrev api_calls : List ApiCall
api_calls =
    request_call grant_request
    ∷ console_call none (
        Route.post_grant
          (record { agent_id = 1; tool_name = drive_read; requested_scope = read_scope }))
    ∷ invoke_call invoke_request
    ∷ revoke_call revocation
    ∷ callback_call (codes "google") none none (some (codes "access_denied"))
    ∷ []

serve_calls-Bounded_example : Bounded 1 (serve_calls calm test_settings api_calls start_world)
serve_calls-Bounded_example =
    serve_calls-Bounded calm test_settings (λ n s h. h) api_calls start_world start-Bounded
