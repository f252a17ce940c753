-- ===== src/Broker/Bounded.antt =====
-- The bound on active grants, over every call of the broker.
use credbroker.Common.{ℕ, ◌+◌, ◌≤◌, Text, Bool, true, Option, List, [], ◌∷◌, arith}
use credbroker.Broker.{
  ApiCall, request_call, invoke_call, revoke_call, console_call, callback_call, serve_call,
  serve_calls,
}
use credbroker.Process.{build_servers}
use credbroker.OAuth.Router.Keeping.{Keeps-callback}
use credbroker.Console.Routes.Keeping.{Keeps-serve}
use credbroker.Config.{Settings}
use credbroker.Exec.Keeps.{Keeps}
use credbroker.Grants.Service.{request_grant, revoke_grant}
use credbroker.Grants.Service.Bound.{
  WithinBound, Bounded, request_grant-Bounded, revoke_grant-Bounded,
}
use credbroker.Grants.Service.Counts.{count_active-later}
use credbroker.Grpc.Servicer.Keeping.{
  Keeps-rpc_request_grant, Keeps-rpc_invoke_tool, Keeps-rpc_revoke_grant,
}
use credbroker.Invoke.Discipline.{Discipline}
use credbroker.Invoke.Outcome.{InvokeService}
use credbroker.Invoke.Service.{invoke}
use credbroker.Invoke.Service.Trace.{Keeps-invoke}
use credbroker.Json.{Fields}
use credbroker.World.{Shared, World, Outside}
use credbroker.World.Trace.{Frame, OnTrace, AnyEvents}

any_events : Discipline AnyEvents AnyEvents
any_events = record {
  on_counted = λ n l t g. tt;
  on_decrypted = λ t g. tt;
  on_refreshed = λ t g. tt;
  on_rechecked = λ b t g. tt;
  cleared = λ t g. tt;
  on_contacted = λ token t g. tt;
  weaken = λ t g. tt;
}

module _ (o : Outside) (settings : Settings)
    (others : (n : ℕ) (s : Shared o.redis.Store)
      → WithinBound settings.max_active_grants_per_agent_scope s
      → WithinBound settings.max_active_grants_per_agent_scope (o.others n s)) where
  open o.redis use {Store}

  abbrev max : ℕ
  max = settings.max_active_grants_per_agent_scope

  -- Only an insertion of a grant could break the bound, and time can not.
  frame : Frame o (Bounded max)
  frame = record {
    on_await = λ w i. record {
      within = others w.steps w.shared i.within;
      pending_Harmless = i.pending_Harmless;
    };
    on_store = λ w s i. record { within = i.within; pending_Harmless = i.pending_Harmless };
    on_circuits = λ w c i. record { within = i.within; pending_Harmless = i.pending_Harmless };
    on_secrets = λ w s i. record { within = i.within; pending_Harmless = i.pending_Harmless };
    on_emit = λ w e i. record { within = i.within; pending_Harmless = i.pending_Harmless };
    on_draw = λ w i. record { within = i.within; pending_Harmless = i.pending_Harmless };
    on_sleep = λ w d i. record {
      within = λ agent tool scope.
          let later : w.now ≤ w.now + d = omega arith in
          omega (
            arith,
            count_active-later agent tool scope w.db.grants w.now (w.now + d) later,
            i.within agent tool scope,
          );
      pending_Harmless = i.pending_Harmless;
    };
    on_assign = λ w f same i. record {
      within = i.within;
      pending_Harmless =
          λ agent tool scope now db. rw same (i.pending_Harmless agent tool scope now db);
    };
    on_reset = λ w i. record {
      within = i.within;
      pending_Harmless = λ agent tool scope now db. omega arith;
    };
    on_commit = λ w i. record {
      within = λ agent tool scope.
          omega (arith, i.within agent tool scope, i.pending_Harmless agent tool scope w.now w.db);
      pending_Harmless = λ agent tool scope now db. omega arith;
    };
  }

  abbrev P : World Store → Type 0
  P = OnTrace (Bounded max) AnyEvents

  Keeps-request_grant :
      (has_cache has_limiter : Bool) (agent_id : ℕ) (tool scope : Text)
      → Keeps P (request_grant o settings has_cache has_limiter agent_id tool scope)
  Keeps-request_grant c l agent_id tool scope = record {
    at = λ w h. record {
      holds = tt;
      frame_lem = request_grant-Bounded o settings others c l agent_id tool scope w h.frame_lem;
    };
  }

  Keeps-revoke_grant : (c : Bool) (id : ℕ) → Keeps P (revoke_grant o c id)
  Keeps-revoke_grant c id = record {
    at = λ w h. record {
      holds = tt;
      frame_lem = revoke_grant-Bounded o settings others c id w h.frame_lem;
    };
  }

  invoked :
      (service : InvokeService) (token tool : Text) (arguments : Fields) (key : Option Text)
      → Keeps P (invoke o service token tool arguments key)
  invoked service token tool arguments key =
      Keeps-invoke o service frame any_events (λ row t g. tt) token tool arguments key

  Keeps-serve_call : (c : ApiCall) (w : World Store) → P w → P (serve_call o settings c w)
  unfolding serve_call
  Keeps-serve_call (request_call r) w h =
      (Keeps-rpc_request_grant o frame (build_servers settings).grpc_server r
          (Keeps-request_grant true true)).at
        w h
  Keeps-serve_call (invoke_call r) w h =
      (Keeps-rpc_invoke_tool o frame (build_servers settings).grpc_server r (invoked _ _ _ _ _)).at
        w h
  Keeps-serve_call (revoke_call r) w h =
      (Keeps-rpc_revoke_grant o frame (build_servers settings).grpc_server r
          (Keeps-revoke_grant true)).at
        w h
  Keeps-serve_call (console_call header route) w h =
      (Keeps-serve o frame (build_servers settings).http_app (Keeps-request_grant true true)
          (Keeps-revoke_grant true) (invoked _) header route).at
        w h
  Keeps-serve_call (callback_call provider code state error) w h =
      (Keeps-callback o frame settings provider code state error).at w h

  Keeps-serve_calls :
      (calls : List ApiCall) (w : World Store) → P w → P (serve_calls o settings calls w)
  unfolding serve_calls
  Keeps-serve_calls [] w h = h
  Keeps-serve_calls (c ∷ calls) w h = Keeps-serve_calls calls _ (Keeps-serve_call c w h)

  -- Whatever calls the broker serves, in any order - RPCs of agents, requests to the operator's API,
  -- with or without its token, and callbacks of the connect flow - whatever other tasks do that keeps
  -- the bound, and whatever fails at each await: from a world in which it holds, no agent ever holds
  -- more active grants for a tool and scope than `max_active_grants_per_agent_scope`.
  pub serve_calls-Bounded :
      (calls : List ApiCall) (w : World Store)
      → Bounded settings.max_active_grants_per_agent_scope w
      → Bounded settings.max_active_grants_per_agent_scope (serve_calls o settings calls w)
  serve_calls-Bounded calls w h =
      (Keeps-serve_calls calls w (record { holds = tt; frame_lem = h })).frame_lem
