-- ===== src/Demo/Seed/Idempotent.antt =====
-- Seeding again changes nothing.
use credbroker.Common.{◌≡◌, refl, ap, sym, ◌∙◌, Bool, false, [], ◌∷◌}
use credbroker.Demo.Seed.{
  Seeded, demo_agent_name, demo_provider, named, scalar_one_or_none, query_own, found_agent,
  found_account, seed_demo,
}
use credbroker.Exec.{ok, ok-inj, bind-ok, lift, ◌>>=◌}
use credbroker.Grants.Service.{latest_account}
use credbroker.Models.{ConnectedAccount, AgentIdentity, Database}
use credbroker.World.{World, Outside, commit}
use credbroker.World.Alone.{Alone, await_alone, stepped}
use credbroker.Demo.Seed.Rows.{Has, found_account-latest, found_agent-named, report, view}

module _ (o : Outside) (alone : Alone o) where
  open o.redis use {Store}

  -- Where the rows are there, they are reported.
  pub seed_demo-again :
      (agent : AgentIdentity) (account : ConnectedAccount) (w : World Store)
      → Has (view w) agent account
      → ((seed_demo o w).0 ≡ ok (report o alone agent account false))
        × ((seed_demo o w).1.db ≡ view w)
  unfolding seed_demo query_own found_agent found_account commit ◌>>=◌
  seed_demo-again agent account w (one, latest) =
      (simp (await_alone o alone, one, latest), simp (await_alone o alone, one, latest))

  query_own-view :
      {A : Type 0} (f : Database → A) (w : World Store)
      → query_own o f w ≡ (ok (f (view w)), stepped w)
  unfolding query_own ◌>>=◌
  query_own-view f w = rw (await_alone o alone) refl

  commit-view : (w : World Store) → ((commit o w).1.db ≡ view w) × ((commit o w).0 ≡ ok tt)
  unfolding commit ◌>>=◌
  commit-view w = (rw (await_alone o alone) refl, rw (await_alone o alone) refl)

  pub seed_demo-Has :
      (w : World Store) (p : Seeded)
      → (seed_demo o w).0 ≡ ok p
      → (agent : AgentIdentity) × (account : ConnectedAccount) × (created : Bool) × Has
          (seed_demo o w).1.db
          agent
          account
        × (p ≡ report o alone agent account created)
  unfolding seed_demo ◌>>=◌
  seed_demo-Has w p e =
      let find_agents = query_own o (λ db. named demo_agent_name db.agents) in
      let (agents, e1, r1, s1) = bind-ok find_agents _ w p e in
      let u1 = (find_agents w).1 in
      let run1 = query_own-view (λ db. named demo_agent_name db.agents) w in
      let view1 : view u1 ≡ view w = ap (λ r. view r.1) run1 in
      let rows1 : agents ≡ named demo_agent_name (view w).agents =
        ok-inj (sym e1 ∙ ap (λ r. r.0) run1) in
      let (known, e2, r2, s2) = bind-ok (lift (scalar_one_or_none agents)) _ u1 p r1 in
      let ((agent, new), e3, r3, s3) = bind-ok (found_agent o known) _ u1 p r2 in
      let u2 = (found_agent o known u1).1 in
      let one : named demo_agent_name (view u2).agents ≡ agent ∷ [] =
        found_agent-named o alone known u1 agent new
          (ap (λ db. scalar_one_or_none (named demo_agent_name db.agents)) view1
            ∙ ap scalar_one_or_none (sym rows1)
            ∙ e2)
          e3 in
      let find_account =
        query_own o (λ db. latest_account agent.user_id demo_provider db.accounts) in
      let (latest, e4, r4, s4) = bind-ok find_account _ u2 p r3 in
      let u3 = (find_account u2).1 in
      let run3 = query_own-view (λ db. latest_account agent.user_id demo_provider db.accounts) u2 in
      let view3 : view u3 ≡ view u2 = ap (λ r. view r.1) run3 in
      let ((account, created), e5, r5, s5) = bind-ok (found_account o agent new latest) _ u3 p r4 in
      let u4 = (found_account o agent new latest u3).1 in
      let (its, agents_same) =
        found_account-latest o alone agent new latest u3 account created
          (ap (λ db. latest_account agent.user_id demo_provider db.accounts) view3
            ∙ ok-inj (ap (λ r. r.0) (sym run3) ∙ e4))
          e5 in
      let (t, e6, r6, s6) = bind-ok (commit o) _ u4 p r5 in
      let tables : (seed_demo o w).1.db ≡ view u4 =
        ap (λ u. u.db) (s1 ∙ s2 ∙ s3 ∙ s4 ∙ s5 ∙ s6) ∙ (commit-view u4).0 in
      (
        agent,
        account,
        created,
        (
          ap (λ db. named demo_agent_name db.agents) tables
              ∙ ap (named demo_agent_name) agents_same
              ∙ ap (λ db. named demo_agent_name db.agents) view3
              ∙ one,
          ap (λ db. latest_account agent.user_id demo_provider db.accounts) tables ∙ its,
        ),
        sym (ok-inj r6),
      )
