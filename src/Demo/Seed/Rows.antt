-- ===== src/Demo/Seed/Rows.antt =====
-- The rows that a seeding inserts, and what its own statements see of them.
use credbroker.Common.{
  ℕ, ◌+◌, ◌≡◌, refl, ap, sym, ◌∙◌, Text, Bool, true, Option, none, some, List, [], ◌∷◌, ◌==◌,
  text_eq, text_eq_refl, arith,
}
use credbroker.Crypto.{Registry, on_registry, to_thread, encrypt_now}
use credbroker.Demo.Seed.{
  Seeded, demo_agent_name, demo_provider, demo_access_token, named, scalar_one_or_none,
  insert_agent, demo_agent, demo_account, add_agent, add_account, found_agent, found_account,
}
use credbroker.Exec.{Exec, ok, ok-inj, err-ne-ok, bind-ok, pure, ◌>>=◌}
use credbroker.Exec.Keeps.{Keeps, keeps_rules}
use credbroker.Grants.Service.{latest_account}
use credbroker.Models.{ConnectedAccount, AgentIdentity, Database}
use credbroker.OAuth.Router.{insert_account}
use credbroker.World.{World, Outside, await, draw, utcnow, assign}
use credbroker.World.Alone.{Alone, await_alone}

-- What the statements of a session see.
abbrev pub view : {S : Type 0} → World S → Database
view w = w.pending w.db

-- The rows that a seeding is about.
abbrev pub Has : Database → AgentIdentity → ConnectedAccount → Type 0
Has db agent account =
    (named demo_agent_name db.agents ≡ agent ∷ [])
    × (latest_account agent.user_id demo_provider db.accounts ≡ some account)

scalar-some :
    {A : Type 0} (rows : List A) (x : A) → scalar_one_or_none rows ≡ ok (some x) → rows ≡ x ∷ []
scalar-some [] x e = cc
scalar-some (y ∷ []) x e = cc
scalar-some (y ∷ z ∷ rows) x e = absurd (err-ne-ok e)

scalar-none : {A : Type 0} (rows : List A) → scalar_one_or_none rows ≡ ok none → rows ≡ []
scalar-none [] e = refl
scalar-none (y ∷ []) e = cc
scalar-none (y ∷ z ∷ rows) e = absurd (err-ne-ok e)

record Sees {S : Type 0} (db : Database) (w : World S) : Type 0 where
  same : view w ≡ db

module _ (o : Outside) (alone : Alone o) where
  open o.redis use {Store}

  module _ {db : Database} where
    Sees-await : Keeps (Sees {S = Store} db) (await o)
    Sees-await = record { at = λ w h. rw (await_alone o alone) (record { same = h.same }) }

    Sees-draw : Keeps (Sees {S = Store} db) (draw o)
    unfolding draw
    Sees-draw = record { at = λ w h. record { same = h.same } }

    Sees-on_registry :
        {A : Type 0} (m : Exec Registry A) → Keeps (Sees {S = Store} db) (on_registry o m)
    unfolding on_registry
    Sees-on_registry m = record { at = λ w h. record { same = h.same } }

    Sees-encrypt_now : (t : Text) → Keeps (Sees {S = Store} db) (encrypt_now o t)
    unfolding encrypt_now to_thread
    Sees-encrypt_now t = search (keeps_rules, Sees-await, Sees-draw, Sees-on_registry) depth 8

  -- What the two insertions return, and the view after them.
  add_agent-view :
      (w : World Store)
      → (agent : AgentIdentity) × ((add_agent o w).0 ≡ ok agent)
        × (agent.name ≡ demo_agent_name)
        × (view (add_agent o w).1 ≡ insert_agent agent (view w))
  unfolding add_agent draw utcnow assign ◌>>=◌
  add_agent-view w =
      let agent = demo_agent o (o.random w.drawn) (o.random (w.drawn + 1)) w.now in
      let done : (add_agent o w).0 ≡ ok agent = simp (await_alone o alone) in
      let seen : view (add_agent o w).1 ≡ insert_agent agent (view w) =
        simp (await_alone o alone) in
      (agent, done, refl, seen)

  add_account-view :
      (user_id : ℕ) (access : Text) (w : World Store)
      → (account : ConnectedAccount) × ((add_account o user_id access w).0 ≡ ok account)
        × (account.user_id ≡ user_id)
        × (account.provider ≡ demo_provider)
        × (view (add_account o user_id access w).1 ≡ insert_account account (view w))
  unfolding add_account draw utcnow assign ◌>>=◌
  add_account-view user_id access w =
      let account = demo_account o user_id access (o.random w.drawn) w.now in
      let done : (add_account o user_id access w).0 ≡ ok account = simp (await_alone o alone) in
      let seen : view (add_account o user_id access w).1 ≡ insert_account account (view w) =
        simp (await_alone o alone) in
      (account, done, refl, refl, seen)

  named-insert :
      (agent : AgentIdentity) (agents : List AgentIdentity)
      → agent.name ≡ demo_agent_name
      → named demo_agent_name agents ≡ []
      → named demo_agent_name (agent ∷ agents) ≡ agent ∷ []
  unfolding named
  named-insert agent agents name nobody =
      let same : text_eq agent.name demo_agent_name ≡ true =
        ap (λ n. text_eq n demo_agent_name) name ∙ text_eq_refl demo_agent_name in
      rw (same, nobody) refl

  latest-insert :
      (account : ConnectedAccount) (user_id : ℕ) (accounts : List ConnectedAccount)
      → account.user_id ≡ user_id
      → account.provider ≡ demo_provider
      → latest_account user_id demo_provider accounts ≡ none
      → latest_account user_id demo_provider (account ∷ accounts) ≡ some account
  unfolding latest_account
  latest-insert account user_id accounts owner provider nothing =
      let mine : (account.user_id == user_id) ≡ true = ground arith in
      let theirs : text_eq account.provider demo_provider ≡ true =
        ap (λ n. text_eq n demo_provider) provider ∙ text_eq_refl demo_provider in
      rw (mine, theirs, nothing) refl

  pub found_agent-named :
      (known : Option AgentIdentity) (w : World Store) (agent : AgentIdentity) (created : Bool)
      → scalar_one_or_none (named demo_agent_name (view w).agents) ≡ ok known
      → (found_agent o known w).0 ≡ ok (agent, created)
      → named demo_agent_name (view (found_agent o known w).1).agents ≡ agent ∷ []
  unfolding found_agent ◌>>=◌
  found_agent-named (some a) w agent created rows e =
      scalar-some _ a rows ∙ ap (λ x. x ∷ []) (ap (λ p. p.0) (ok-inj e))
  found_agent-named none w agent created rows e =
      let (a, f, rest, s) = bind-ok (add_agent o) (λ a. pure (a, true)) w (agent, created) e in
      let (b, g, name, seen) = add_agent-view w in
      let same : b ≡ agent = ok-inj (sym g ∙ f) ∙ ap (λ p. p.0) (ok-inj rest) in
      ap (λ u. named demo_agent_name (view u).agents) s
      ∙ ap (λ db. named demo_agent_name db.agents) seen
      ∙ named-insert b (view w).agents name (scalar-none _ rows)
      ∙ ap (λ x. x ∷ []) same

  pub found_account-latest :
      (agent : AgentIdentity) (b : Bool) (latest : Option ConnectedAccount) (w : World Store)
      (account : ConnectedAccount) (created : Bool)
      → latest_account agent.user_id demo_provider (view w).accounts ≡ latest
      → (found_account o agent b latest w).0 ≡ ok (account, created)
      → (latest_account agent.user_id demo_provider
            (view (found_account o agent b latest w).1).accounts
          ≡ some account)
        × ((view (found_account o agent b latest w).1).agents ≡ (view w).agents)
  unfolding found_account ◌>>=◌
  found_account-latest agent b (some a) w account created rows e =
      (rows ∙ ap some (ap (λ p. p.0) (ok-inj e)), refl)
  found_account-latest agent b none w account created rows e =
      let (access, f, rest, s) = bind-ok (encrypt_now o demo_access_token) _ w _ e in
      let u = (encrypt_now o demo_access_token w).1 in
      let still : view u ≡ view w =
        ((Sees-encrypt_now demo_access_token).at w (record { same = refl })).same in
      let (a, g, last, t) = bind-ok (add_account o agent.user_id access) _ u _ rest in
      let (c, h, owner, provider, seen) = add_account-view agent.user_id access u in
      let same : c ≡ account = ok-inj (sym h ∙ g) ∙ ap (λ p. p.0) (ok-inj last) in
      let after = s ∙ t in
      let final = ap view after ∙ seen ∙ ap (insert_account c) still in
      (
        ap (λ db. latest_account agent.user_id demo_provider db.accounts) final
            ∙ latest-insert c agent.user_id (view w).accounts owner provider rows
            ∙ ap some same,
        ap (λ db. db.agents) final,
      )

  abbrev pub report : AgentIdentity → ConnectedAccount → Bool → Seeded
  report agent account created = record {
    user_id = o.uuid_str agent.user_id;
    agent_id = o.uuid_str agent.id;
    connected_account_id = o.uuid_str account.id;
    created = created;
  }
