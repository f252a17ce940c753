-- ===== src/Demo/Seed.antt =====
-- credbroker/demo/seed.py: the demo agent and its account.
pub mod Rows
pub mod Keeping
pub mod Idempotent
use credbroker.Common.{
  ℕ, ◌+◌, ◌*◌, Text, Bool, true, false, Option, none, some, List, [], ◌∷◌, codes, text_eq,
  if◌then◌else◌,
}
use credbroker.Crypto.{encrypt_now}
use credbroker.Errors.{other}
use credbroker.Exec.{Result, ok, err, pure, lift, gets, ◌>>=◌, ◌>>◌}
use credbroker.Grants.Service.{latest_account}
use credbroker.Models.{ConnectedAccount, AgentIdentity, Database}
use credbroker.OAuth.Router.{insert_account}
use credbroker.Redis.{second}
use credbroker.World.{Outside, M, await, draw, utcnow, assign, commit}

abbrev pub demo_agent_name : Text
demo_agent_name = codes "demo agent"

abbrev pub demo_provider : Text
demo_provider = codes "google"

abbrev pub demo_access_token : Text
demo_access_token = codes "demo-access-token-not-a-real-credential"

-- What `seed_demo` reports.
pub record Seeded : Type 0 where
  pub user_id : Text
  pub agent_id : Text
  pub connected_account_id : Text
  pub created : Bool

-- The agents with a name.
unfoldable pub named : Text → List AgentIdentity → List AgentIdentity
named name [] = []
named name (a ∷ agents) =
    let rest = named name agents in if text_eq a.name name then a ∷ rest else rest

-- `scalar_one_or_none`
abbrev pub scalar_one_or_none : {A : Type 0} → List A → Result (Option A)
scalar_one_or_none [] = ok none
scalar_one_or_none (x ∷ []) = ok (some x)
scalar_one_or_none (x ∷ y ∷ rows) = err (other (codes "MultipleResultsFound"))

abbrev pub insert_agent : AgentIdentity → Database → Database
insert_agent a db = record db { agents = a ∷ db.agents }

module _ (o : Outside) where
  -- A statement in a session that has flushed changes: it sees them.
  unfoldable pub query_own : {A : Type 0} → (Database → A) → M o A
  query_own f = do await o; gets λ w. f (w.pending w.db)

  abbrev pub demo_agent : ℕ → ℕ → ℕ → AgentIdentity
  demo_agent user_id id created_at = record {
    id = id;
    user_id = user_id;
    name = demo_agent_name;
    allowed_scopes = codes "drive.read" ∷ [];
    created_at = created_at;
  }

  -- A new agent: `session.add` and the flush, which fills in the defaults.
  pub add_agent : M o AgentIdentity
  add_agent = do
    user_id ← draw o
    id ← draw o
    created_at ← utcnow o
    assign o (insert_agent (demo_agent user_id id created_at))
    await o
    pure (demo_agent user_id id created_at)

  -- The agent, and whether it was created.
  pub found_agent : Option AgentIdentity → M o (AgentIdentity × Bool)
  unfolding add_agent
  found_agent (some agent) = pure (agent, false)
  found_agent none = do agent ← add_agent; pure (agent, true)

  -- An account that expires in a year.
  abbrev pub demo_account : ℕ → Text → ℕ → ℕ → ConnectedAccount
  demo_account user_id access id now = record {
    id = id;
    user_id = user_id;
    provider = demo_provider;
    encrypted_access_token = access;
    encrypted_refresh_token = none;
    scopes_granted = codes "demo" ∷ [];
    expires_at = some (now + 365 * 86_400 * second);
    created_at = now;
  }

  pub add_account : ℕ → Text → M o ConnectedAccount
  add_account user_id access = do
    now ← utcnow o
    id ← draw o
    assign o (insert_account (demo_account user_id access id now))
    await o
    pure (demo_account user_id access id now)

  -- The account, and whether a row was created.
  pub found_account : AgentIdentity → Bool → Option ConnectedAccount → M o (ConnectedAccount × Bool)
  unfolding add_account
  found_account agent created (some account) = pure (account, created)
  found_account agent created none = do
    access ← encrypt_now o demo_access_token
    account ← add_account agent.user_id access
    pure (account, true)

  -- `seed_demo`
  unfoldable pub seed_demo : M o Seeded
  unfolding found_agent found_account
  seed_demo = do
    agents ← query_own λ db. named demo_agent_name db.agents
    known ← lift (scalar_one_or_none agents)
    (agent, new_agent) ← found_agent known
    latest ← query_own λ db. latest_account agent.user_id demo_provider db.accounts
    (account, created) ← found_account agent new_agent latest
    commit o
    pure (record {
      user_id = o.uuid_str agent.user_id;
      agent_id = o.uuid_str agent.id;
      connected_account_id = o.uuid_str account.id;
      created = created;
    })
