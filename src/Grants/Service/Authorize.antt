-- ===== src/Grants/Service/Authorize.antt =====
-- What the checks of a grant request establish.
use credbroker.Common.{
  ℕ, ◌+◌, ◌<◌, ◌≡◌, ◌⊎◌, inl, inr, refl, Text, Bool-cases, leb, true, some, text_eq, text_eq→eq,
  Option-cases, arith, ◌==◌,
}
use credbroker.Config.{Settings}
use credbroker.Errors.{Exn}
use credbroker.Exec.{ok, err, ◌>>=◌, Result-cases}
use credbroker.Grants.Service.{contains, latest_account, count_active, authorize, found, held}
use credbroker.Models.{ConnectedAccount, AgentIdentity, Database, find}
use credbroker.Tools.{ToolAdapter, get_tool}
use credbroker.World.{World, Outside}

-- The agent is known and may use the tool, the tool is registered under the requested scope, the
-- account is the latest of the agent's own user with the tool's provider, and the agent holds fewer
-- active grants than allowed.
pub record Authorized (settings : Settings) (agent_id : ℕ) (tool_name scope : Text) (now : ℕ)
    (db : Database) (account : ConnectedAccount) : Type 0 where
  pub agent : AgentIdentity
  pub tool : ToolAdapter
  pub known : find (λ (a : AgentIdentity). a.id == agent_id) db.agents ≡ some agent
  pub registered : get_tool settings tool_name ≡ ok tool
  pub permitted : contains tool_name agent.allowed_scopes ≡ true
  pub in_scope : scope ≡ tool.scope
  pub connected : latest_account agent.user_id tool.provider db.accounts ≡ some account
  pub below :
      count_active agent_id tool_name scope now db.grants
      < settings.max_active_grants_per_agent_scope

module _ (o : Outside) where
  open o.redis use {Store}

  -- An await under the lock fails or not, and counts as a step.
  pub held-cases :
      (w : World Store)
      → (held o w ≡ (ok tt, record w { steps = w.steps + 1 }))
        ⊎ ((x : Exn) × (held o w ≡ (err x, record w { steps = w.steps + 1 })))
  unfolding held
  held-cases w = elim (Option-cases (o.fault w.steps)) [
    | inl e ↦ inl (rw (e, held) refl)
    | inr (x, e) ↦ inr (x, rw (e, held) refl)
  ]

  -- The checks read, and change nothing.
  pub authorize-Authorized :
      (settings : Settings) (agent_id : ℕ) (tool_name scope : Text) (w : World Store)
      → ((authorize o settings agent_id tool_name scope w).1 ≡ w)
        × ((account : ConnectedAccount)
            → (authorize o settings agent_id tool_name scope w).0 ≡ ok account
            → Authorized settings agent_id tool_name scope w.now w.db account)
  unfolding authorize ◌>>=◌ found
  authorize-Authorized settings agent_id tool_name scope w =
      elim (Option-cases (find (λ (a : AgentIdentity). a.id == agent_id) w.db.agents)) [
        | inl e ↦ rw e (refl, λ account h. absurd (ground arith))
        | inr (agent, e) ↦ rw e (elim (Result-cases (get_tool settings tool_name)) [
          | inr (x, t) ↦ rw t (refl, λ account h. absurd (ground arith))
          | inl (tool, t) ↦ rw t (elim (Bool-cases (contains tool_name agent.allowed_scopes)) [
            | inr p ↦ rw p (refl, λ account h. absurd (ground arith))
            | inl p ↦ rw p (elim (Bool-cases (text_eq scope tool.scope)) [
              | inr q ↦ rw q (refl, λ account h. absurd (ground arith))
              | inl q ↦
                  rw q
                    (elim (Option-cases
                      (latest_account agent.user_id tool.provider w.db.accounts)) [
                        | inl a ↦ rw a (refl, λ account h. absurd (ground arith))
                        | inr (account, a) ↦
                            rw a
                              (elim (Bool-cases (
                                leb settings.max_active_grants_per_agent_scope
                                  (count_active agent_id tool_name scope w.now w.db.grants))) [
                                    | inl full ↦ rw full (refl, λ account h. absurd (ground arith))
                                    | inr free ↦ rw free (
                                      refl,
                                      λ found h. record {
                                        agent = agent;
                                        tool = tool;
                                        known = e;
                                        registered = t;
                                        permitted = p;
                                        in_scope = text_eq→eq scope tool.scope q;
                                        connected = ground arith;
                                        below = ground arith;
                                      },
                                    )
                                  ])
                      ])
            ])
          ])
        ])
      ]
