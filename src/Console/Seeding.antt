-- ===== src/Console/Seeding.antt =====
-- The console's seed route, which is called again.
use credbroker.Common.{◌≡◌, ap, sym, ◌∙◌, false}
use credbroker.Console.Api.{demo_seed}
use credbroker.Console.State.{AppState}
use credbroker.Demo.Seed.{Seeded, demo_agent_name, demo_provider, named, seed_demo}
use credbroker.Grants.Service.{latest_account}
use credbroker.Demo.Seed.Idempotent.{seed_demo-Has, seed_demo-again}
use credbroker.Demo.Seed.Rows.{report}
use credbroker.Exec.{ok, ok-inj, bind-ok, ◌>>=◌}
use credbroker.Http.{answered, answered-inj}
use credbroker.World.{World, Outside, in_session}
use credbroker.World.Alone.{Alone, in_session-db}
use credbroker.World.Returns.{opened, in_session-result}

module _ (o : Outside) (alone : Alone o) (state : AppState) where
  open o.redis use {Store}

  -- Where nothing disturbs the calls: once the demo data has been seeded, seeding it again, at any
  -- later time, reports the same user, agent and account as not created, and changes no table.
  pub demo_seed-Idempotent :
      (w u : World Store) (p : Seeded)
      → (demo_seed o state w).0 ≡ ok (answered p)
      → u.db ≡ (demo_seed o state w).1.db
      → ((demo_seed o state u).0 ≡ ok (answered (record p { created = false })))
        × ((demo_seed o state u).1.db ≡ u.db)
  unfolding demo_seed ◌>>=◌
  demo_seed-Idempotent w u p e same =
      let (q, e1, e2, s) = bind-ok (in_session o (seed_demo o)) _ w (answered p) e in
      let seeded : (seed_demo o (opened w)).0 ≡ ok q =
        sym (in_session-result o alone.no_fault (seed_demo o) w) ∙ e1 in
      let (agent, account, created, (one, latest), reported) =
        seed_demo-Has o alone (opened w) q seeded in
      let tables : (demo_seed o state w).1.db ≡ (seed_demo o (opened w)).1.db =
        ap (λ v. v.db) s ∙ in_session-db o alone (seed_demo o) w in
      let (again, unchanged) = seed_demo-again o alone agent account (opened u) (
        ap (λ db. named demo_agent_name db.agents) (same ∙ tables) ∙ one,
        ap (λ db. latest_account agent.user_id demo_provider db.accounts) (same ∙ tables) ∙ latest,
      ) in
      let first : q ≡ p = answered-inj (ok-inj e2) in
      let reports : report o alone agent account false ≡ record p { created = false } =
        ap (λ (r : Seeded). let r' : Seeded = record r { created = false } in r')
          (sym reported ∙ first) in
      (
        rw (in_session-result o alone.no_fault (seed_demo o) u, again)
            (ap (λ r. ok (answered r)) reports),
        rw (in_session-result o alone.no_fault (seed_demo o) u, again)
            (in_session-db o alone (seed_demo o) u ∙ unchanged),
      )
