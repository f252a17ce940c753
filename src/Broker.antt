-- ===== src/Broker.antt =====
-- The broker as its callers see it: the RPCs of the agents, the routes of the operator and the
-- callback of the connect flow, of the servers that `build_servers` of credbroker/main.py makes.
pub mod Bounded
use credbroker.Common.{Text, Option, List, [], ◌∷◌}
use credbroker.Config.{Settings}
use credbroker.Console.Routes.{Route, serve}
use credbroker.Grpc.Messages.{GrantRequest, InvokeRequest, RevokeRequest}
use credbroker.Grpc.Servicer.{rpc_request_grant, rpc_invoke_tool, rpc_revoke_grant}
use credbroker.OAuth.Router.{callback}
use credbroker.Process.{build_servers}
use credbroker.World.{World, Outside}

pub data ApiCall : Type 0 where
  request_call : GrantRequest → ApiCall
  invoke_call : InvokeRequest → ApiCall
  revoke_call : RevokeRequest → ApiCall
  console_call : Option Text → Route → ApiCall
  callback_call : Text → Option Text → Option Text → Option Text → ApiCall

module _ (o : Outside) (settings : Settings) where
  open o.redis use {Store}

  unfoldable pub serve_call : ApiCall → World Store → World Store
  serve_call (request_call r) w = (rpc_request_grant o (build_servers settings).grpc_server r w).1
  serve_call (invoke_call r) w = (rpc_invoke_tool o (build_servers settings).grpc_server r w).1
  serve_call (revoke_call r) w = (rpc_revoke_grant o (build_servers settings).grpc_server r w).1
  serve_call (console_call header route) w =
      (serve o (build_servers settings).http_app header route w).1
  serve_call (callback_call provider code state error) w =
      (callback o settings provider code state error w).1

  -- One call after the other.
  unfoldable pub serve_calls : List ApiCall → World Store → World Store
  serve_calls [] w = w
  serve_calls (c ∷ calls) w = serve_calls calls (serve_call c w)
