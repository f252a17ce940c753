-- ===== src/Grants/Service/Issue.antt =====
-- What the locked part of a grant request returns and stores.
use credbroker.Common.{
  ℕ, ◌*◌, ◌/◌, ◌<◌, ◌≡◌, ◌∙◌, refl, sym, ap, ◌+◌, inl, inr, Text, some, none, ◌∷◌, ==_iff, arith,
}
use credbroker.Config.{Settings}
use credbroker.Exec.{ok, Result-cases, ◌>>=◌}
use credbroker.Grants.Service.{
  IssuedGrant, authorize, add_grant, count_active, issue, new_grant, insert_grant,
}
use credbroker.Grants.Service.Accounts.{Latest, find-Mem, contains-Mem, latest_account-Latest}
use credbroker.Grants.Service.Authorize.{Authorized, authorize-Authorized, held-cases}
use credbroker.Grants.Tokens.{sign_grant_token}
use credbroker.Models.{AgentIdentity, ConnectedAccount, Database}
use credbroker.Tools.{ToolAdapter, get_tool}
use credbroker.World.{World, Outside, await, draw, utcnow}
use credbroker.Exec.{modify}
use mathlib.Core.List.{Mem}
use mathlib.Core.Path.{subst}

module _ (o : Outside) (settings : Settings) (agent_id : ℕ) (tool_name scope : Text) where
  open o.redis use {Store}

  -- What an answered request comes to, with `u` the world in which the row lock is held, and `after`
  -- the tables in the end.
  pub record Granted (u : World Store) (issued : IssuedGrant) (after : Database) : Type 0 where
    pub agent : AgentIdentity
    pub tool : ToolAdapter
    pub account : ConnectedAccount
    pub known : Mem agent u.db.agents
    pub is_agent : agent.id ≡ agent_id
    pub registered : get_tool settings tool_name ≡ ok tool
    pub permitted : Mem tool_name agent.allowed_scopes
    pub in_scope : scope ≡ tool.scope
    pub connected : Latest agent.user_id tool.provider u.db.accounts account
    pub below :
        count_active agent_id tool_name scope u.now u.db.grants
        < settings.max_active_grants_per_agent_scope
    pub id : ℕ
    pub row : issued.grant ≡ record {
      id = id;
      agent_id = agent_id;
      connected_account_id = account.id;
      tool_name = tool_name;
      scope = scope;
      grant_token_hash = o.sha256 issued.token;
      issued_at = u.now;
      expires_at = u.now + settings.grant_token_ttl_seconds * 1_000_000;
      revoked_at = none;
    }
    pub token :
        issued.token
        ≡ o.jwt_encode
            (record {
              iss = some settings.jwt_issuer;
              sub = some (o.uuid_str agent_id);
              jti = some (o.uuid_str id);
              tool = some tool_name;
              scope = some scope;
              iat = some (u.now / 1_000_000);
              exp = some ((u.now + settings.grant_token_ttl_seconds * 1_000_000) / 1_000_000);
            })
            settings.jwt_private_key_pem
    pub stored : after ≡ record {
      accounts = u.db.accounts;
      agents = u.db.agents;
      grants = issued.grant ∷ u.db.grants;
      audit_log = u.db.audit_log;
    }

  new_grant-Granted :
      (account : ConnectedAccount) (u : World Store) (id : ℕ)
      → Authorized settings agent_id tool_name scope u.now u.db account
      → let issued = new_grant o settings agent_id account tool_name scope id u.now in
        Granted u issued (insert_grant o issued.grant u.db)
  unfolding sign_grant_token
  new_grant-Granted account u id a =
      let (known, is_agent) = find-Mem _ u.db.agents a.agent a.known in
      record {
        agent = a.agent;
        tool = a.tool;
        account = account;
        known = known;
        is_agent = (==_iff a.agent.id agent_id).0 is_agent;
        registered = a.registered;
        permitted = contains-Mem tool_name a.agent.allowed_scopes a.permitted;
        in_scope = a.in_scope;
        connected =
            latest_account-Latest a.agent.user_id a.tool.provider u.db.accounts account a.connected;
        below = a.below;
        id = id;
        row = refl;
        token = refl;
        stored = refl;
      }

  add_grant-Granted :
      (account : ConnectedAccount) (u : World Store) (issued : IssuedGrant)
      → Authorized settings agent_id tool_name scope u.now u.db account
      → (add_grant o settings agent_id tool_name scope account u).0 ≡ ok issued
      → Granted u issued (add_grant o settings agent_id tool_name scope account u).1.db
  unfolding add_grant ◌>>=◌ draw utcnow modify
  add_grant-Granted account u issued a e =
      let id = o.random u.drawn in
      let v = record u { drawn = u.drawn + 1 } in
      let new = new_grant o settings agent_id account tool_name scope id u.now in
      elim (held-cases o v) [
        | inr (x, fails) ↦ absurd (ground (arith, ap (λ p. p.0) fails))
        | inl done ↦
            let same : new ≡ issued = ground (arith, ap (λ p. p.0) done) in
            rw done (
              subst (λ i. Granted u i (insert_grant o new.grant u.db)) same
                (new_grant-Granted account u id a))
      ]

  -- A grant request that is answered was authorized by the tables in the world in which the row lock
  -- was taken: a stored agent with the id is allowed the tool, which is registered under the scope, and
  -- holds fewer active grants than the maximum. The grant is on the latest of the stored accounts of
  -- the agent's own user with the tool's provider, expires after the time to live, and has the hash of
  -- the token, which is signed over the same facts; and it is the one row that is stored.
  pub issue-Granted :
      (w : World Store) (issued : IssuedGrant)
      → (issue o settings agent_id tool_name scope w).0 ≡ ok issued
      → Granted (await o w).1 issued (issue o settings agent_id tool_name scope w).1.db
  unfolding issue ◌>>=◌
  issue-Granted w issued h =
      let u = (await o w).1 in
      let (same, granted) = authorize-Authorized o settings agent_id tool_name scope u in
      elim (Result-cases (await o w).0) [
        | inr (x, e) ↦ absurd (ground arith)
        | inl (t, e) ↦ elim (Result-cases (authorize o settings agent_id tool_name scope u).0) [
          | inr (x, a) ↦ absurd (ground arith)
          | inl (account, a) ↦
              let here : issue o settings agent_id tool_name scope w
                  ≡ add_grant o settings agent_id tool_name scope account u =
                rw (e, a, same) refl in
              subst (λ db. Granted u issued db) (ap (λ p. p.1.db) (sym here))
                (add_grant-Granted account u issued (granted account a)
                  (ap (λ p. p.0) (sym here) ∙ h))
        ]
      ]
