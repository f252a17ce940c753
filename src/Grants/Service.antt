-- ===== src/Grants/Service.antt =====
-- credbroker/grants/service.py. The statements from the row lock on the agent to the commit are one
-- step of the database: the lock keeps other requests for the agent out, and what they read is what
-- is committed. Of the awaits in between, the one that takes the lock and the commit may fail.
pub mod Counts
pub mod Accounts
pub mod Authorize
pub mod Bound
pub mod Issue
pub mod Revoke
use credbroker.Common.{
  ℕ, ◌+◌, ◌*◌, Text, Bool, true, false, not, ◌&&◌, Option, none, some, List, [], ◌∷◌, ◌++◌, codes,
  decimal, length, ltb, leb, ◌==◌, is_some, text_eq, if◌then◌else◌,
}
use credbroker.Cache.GrantCache.{record_issued, record_revoked}
use credbroker.Cache.RateLimiter.{check}
use credbroker.Config.{Settings}
use credbroker.Errors.{
  Exn, broker, rate_limited, unknown_agent, policy_denied, grant_scope_mismatch,
  no_connected_account, concurrency_limit, grant_not_found,
}
use credbroker.Exec.{Result, ok, err, pure, raise, lift, gets, modify, raise_if, ◌>>=◌, ◌>>◌}
use credbroker.Grants.Tokens.{sign_grant_token, hash_token}
use credbroker.Models.{ConnectedAccount, AgentIdentity, Grant, Database, find, update_where}
use credbroker.Redis.{second}
use credbroker.Tools.{ToolAdapter, get_tool}
use credbroker.World.{Outside, M, await, emit, draw, utcnow, query, assign, commit, counted}

pub record IssuedGrant : Type 0 where
  pub token : Text
  pub grant : Grant

pub contains : Text → List Text → Bool
contains t [] = false
contains t (x ∷ xs) = if text_eq x t then true else contains t xs

-- `ORDER BY created_at DESC LIMIT 1` among the accounts of a user with a provider
newer : ConnectedAccount → Option ConnectedAccount → ConnectedAccount
newer a none = a
newer a (some b) = if ltb a.created_at b.created_at then b else a

unfoldable pub latest_account : ℕ → Text → List ConnectedAccount → Option ConnectedAccount
unfolding newer
latest_account user provider [] = none
latest_account user provider (a ∷ rest) =
    let others = latest_account user provider rest in
    if a.user_id == user && text_eq a.provider provider then some (newer a others) else others

-- The condition of the count: a grant of this agent, tool and scope, not revoked and not expired.
unfoldable pub is_active : ℕ → Text → Text → ℕ → Grant → Bool
is_active agent tool scope now g =
    (g.agent_id == agent)
    && text_eq g.tool_name tool
    && text_eq g.scope scope
    && not (is_some g.revoked_at)
    && ltb now g.expires_at

unfoldable pub count_active : ℕ → Text → Text → ℕ → List Grant → ℕ
unfolding is_active
count_active agent tool scope now [] = 0
count_active agent tool scope now (g ∷ gs) =
    let rest = count_active agent tool scope now gs in
    if is_active agent tool scope now g then rest + 1 else rest

module _ (o : Outside) where
  -- The optional collaborators: whether a grant cache and a rate limiter were given.
  issue_limited : Bool → Settings → ℕ → M o (Unit {0})
  issue_limited false settings agent_id = pure tt
  issue_limited true settings agent_id = do
    allowed ← check o (codes "grants:" ++ o.uuid_str agent_id) settings.grants_per_minute_per_agent
    if allowed then pure tt else (do
      emit o (counted (codes "rate_limited") (codes "request_grant" ∷ []))
      raise (broker rate_limited (codes "grant request rate limit exceeded")))

  found : {A : Type 0} → Option A → Exn → M o A
  found none e = raise e
  found (some a) e = pure a

  -- The checks under the row lock, in the order of the source: the agent, the tool, the policy, the
  -- scope, the account and the count.
  unfoldable pub authorize : Settings → ℕ → Text → Text → M o ConnectedAccount
  unfolding found contains
  authorize settings agent_id tool_name requested_scope = do
    agent ← (do
      row ← gets λ w. find (λ (a : AgentIdentity). a.id == agent_id) w.db.agents
      found row (broker unknown_agent (codes "unknown agent: " ++ o.uuid_str agent_id)))
    tool ← lift (get_tool settings tool_name)
    raise_if (not (contains tool_name agent.allowed_scopes))
        (broker policy_denied (codes "agent is not permitted to request tool " ++ o.repr tool_name))
    raise_if (not (text_eq requested_scope tool.scope)) (
        broker grant_scope_mismatch (
          codes "tool "
          ++ (o.repr tool_name
              ++ (codes " has scope "
                  ++ (o.repr tool.scope ++ (codes ", not " ++ o.repr requested_scope))))))
    account ← (do
      row ← gets λ w. latest_account agent.user_id tool.provider w.db.accounts
      found row (
          broker no_connected_account
            (codes "user has no connected account for provider " ++ o.repr tool.provider)))
    active ← gets λ w. count_active agent_id tool_name requested_scope w.now w.db.grants
    raise_if (leb settings.max_active_grants_per_agent_scope active) (
        broker concurrency_limit (
          codes "agent already holds "
          ++ (decimal active ++ (codes " active grant(s) for " ++ o.repr tool_name))))
    pure account

  -- The row and the token of a new grant.
  abbrev pub new_grant : Settings → ℕ → ConnectedAccount → Text → Text → ℕ → ℕ → IssuedGrant
  new_grant settings agent_id account tool_name scope grant_id now =
      let expires = now + settings.grant_token_ttl_seconds * second in
      let token = sign_grant_token o settings grant_id agent_id tool_name scope now expires in
      record {
        token = token;
        grant = record {
          id = grant_id;
          agent_id = agent_id;
          connected_account_id = account.id;
          tool_name = tool_name;
          scope = scope;
          grant_token_hash = hash_token o token;
          issued_at = now;
          expires_at = expires;
          revoked_at = none;
        };
      }

  abbrev pub insert_grant : Grant → Database → Database
  insert_grant g db = record db { grants = g ∷ db.grants }

  -- An await under the row lock, which may fail. What other tasks do meanwhile is not told apart from
  -- what they do at the await that takes the lock.
  pub held : M o (Unit {0})
  held w =
      let after = record w { steps = w.steps + 1 } in
      elim (o.fault w.steps) [ none ↦ (ok tt, after) | some e ↦ (err e, after) ]

  -- The row and its commit, under the row lock; a commit that fails stores nothing.
  add_grant : Settings → ℕ → Text → Text → ConnectedAccount → M o IssuedGrant
  unfolding held
  add_grant settings agent_id tool_name requested_scope account = do
    grant_id ← draw o
    now ← utcnow o
    let issued = new_grant settings agent_id account tool_name requested_scope grant_id now
    held
    modify λ w. record w { shared = record w.shared { db = insert_grant issued.grant w.db } }
    pure issued

  -- From the row lock to the commit.
  unfoldable pub issue : Settings → ℕ → Text → Text → M o IssuedGrant
  unfolding authorize add_grant
  issue settings agent_id tool_name requested_scope = do
    await o
    account ← authorize settings agent_id tool_name requested_scope
    add_grant settings agent_id tool_name requested_scope account

  -- `request_grant`
  unfoldable pub request_grant : Settings → Bool → Bool → ℕ → Text → Text → M o IssuedGrant
  unfolding issue_limited issue
  request_grant settings has_cache has_limiter agent_id tool_name requested_scope = do
    issue_limited has_limiter settings agent_id
    issued ← issue settings agent_id tool_name requested_scope
    if has_cache
        then record_issued o issued.grant.grant_token_hash settings.grant_token_ttl_seconds
        else pure tt
    pure issued

  abbrev pub set_revoked : ℕ → ℕ → Database → Database
  set_revoked grant_id now db = record db {
    grants =
        update_where (λ (g : Grant). g.id == grant_id) (λ g. record g { revoked_at = some now })
          db.grants;
  }

  -- `grant.revoked_at = utcnow()` and the commit, where the grant that was read is not revoked
  mark_revoked : Grant → Option ℕ → M o Grant
  mark_revoked g (some _) = pure g
  mark_revoked g none = do
    now ← utcnow o
    assign o (set_revoked g.id now)
    commit o
    pure (record g { revoked_at = some now })

  -- `revoke_grant`
  unfoldable pub revoke_grant : Bool → ℕ → M o Grant
  unfolding found mark_revoked
  revoke_grant has_cache grant_id = do
    row ← query o λ db. find (λ (g : Grant). g.id == grant_id) db.grants
    grant ← found row (broker grant_not_found (codes "grant not found: " ++ o.uuid_str grant_id))
    revoked ← mark_revoked grant grant.revoked_at
    if has_cache then record_revoked o grant.grant_token_hash else pure tt
    pure revoked
