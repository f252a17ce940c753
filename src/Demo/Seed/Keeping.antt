-- ===== src/Demo/Seed/Keeping.antt =====
-- Seeding keeps what no part of an invocation can break.
use credbroker.Common.{refl, ℕ, Text, Bool, Option, none, some}
use credbroker.Demo.Seed.{
  insert_agent, query_own, add_agent, add_account, found_agent, found_account, seed_demo,
}
use credbroker.Exec.Keeps.{Keeps}
use credbroker.Invoke.Trace.{Keeps-encrypt_now}
use credbroker.Models.{AgentIdentity, ConnectedAccount, Database}
use credbroker.OAuth.Router.Keeping.{Keeps-insert_account}
use credbroker.World.{World, Outside, assign}
use credbroker.World.Trace.{Frame, OnTrace, AnyEvents, silent, Keeps-assign}

module _ (o : Outside) {I : World o.redis.Store → Type 0} (frame : Frame o I) where
  open o.redis use {Store}

  abbrev P : World Store → Type 0
  P = OnTrace I AnyEvents

  pub Keeps-insert_agent : (a : AgentIdentity) → Keeps P (assign o (insert_agent a))
  Keeps-insert_agent a = Keeps-assign o frame _ (λ db. refl)

  Keeps-query_own : {A : Type 0} (f : Database → A) → Keeps P (query_own o f)
  unfolding query_own
  Keeps-query_own f = search silent

  Keeps-add_agent : Keeps P (add_agent o)
  unfolding add_agent
  Keeps-add_agent = search (silent, Keeps-insert_agent) depth 10

  Keeps-found_agent : (known : Option AgentIdentity) → Keeps P (found_agent o known)
  unfolding found_agent
  Keeps-found_agent none = search (silent, Keeps-add_agent)
  Keeps-found_agent (some agent) = search silent

  Keeps-add_account : (user_id : ℕ) (access : Text) → Keeps P (add_account o user_id access)
  unfolding add_account
  Keeps-add_account user_id access = search (silent, Keeps-insert_account) depth 10

  Keeps-found_account :
      (agent : AgentIdentity) (created : Bool) (known : Option ConnectedAccount)
      → Keeps P (found_account o agent created known)
  unfolding found_account
  Keeps-found_account agent created none =
      search (silent, Keeps-encrypt_now, Keeps-add_account) depth 8
  Keeps-found_account agent created (some account) = search silent

  pub Keeps-seed_demo : Keeps P (seed_demo o)
  unfolding seed_demo
  Keeps-seed_demo =
      search (silent, Keeps-query_own, Keeps-found_agent, Keeps-found_account) depth 12
