-- ===== src/Grants/Service/Bound.antt =====
-- No agent ever holds more active grants for a tool and scope than the settings allow.
use credbroker.Common.{
  ℕ, ◌+◌, ◌≤◌, ◌<◌, inl, inr, Text, Bool, true, false, Option, Option-cases, none, some, arith,
}
use credbroker.Cache.GrantCache.{record_issued, record_revoked}
use credbroker.Cache.RateLimiter.{check}
use credbroker.Config.{Settings}
use credbroker.Errors.{Exn}
use credbroker.Exec.{modify, ◌>>=◌}
use credbroker.Exec.Keeps.{Keeps, keeps_rules, Keeps-bind, bind_at}
use credbroker.Grants.Service.{
  count_active, authorize, found, issue, issue_limited, add_grant, new_grant, request_grant,
  set_revoked, mark_revoked, revoke_grant,
}
use credbroker.Grants.Service.Authorize.{authorize-Authorized, held-cases}
use credbroker.Grants.Service.Counts.{count_active-revoked, count_active-insert}
use credbroker.Models.{ConnectedAccount, Grant, Database}
use credbroker.World.{
  Shared, World, Outside, Event, await, emit, draw, utcnow, query, assign, commit, redis_write,
  run_store,
}

-- In the tables, at a time.
abbrev pub WithinBound : {S : Type 0} → ℕ → Shared S → Type 0
WithinBound max s =
    (agent : ℕ) (tool scope : Text) → count_active agent tool scope s.now s.db.grants ≤ max

-- A change of the tables that makes no grant active.
abbrev pub Harmless : (Database → Database) → Type 0
Harmless f =
    (agent : ℕ) (tool scope : Text) (now : ℕ) (db : Database)
    → count_active agent tool scope now (f db).grants ≤ count_active agent tool scope now db.grants

pub record Bounded {S : Type 0} (max : ℕ) (w : World S) : Type 0 where
  pub within : WithinBound max w.shared
  pub pending_Harmless : Harmless w.pending

module _ (o : Outside) (settings : Settings)
    (others : (n : ℕ) (s : Shared o.redis.Store)
      → WithinBound settings.max_active_grants_per_agent_scope s
      → WithinBound settings.max_active_grants_per_agent_scope (o.others n s)) where
  open o.redis use {Store}

  abbrev max : ℕ
  max = settings.max_active_grants_per_agent_scope

  abbrev P : World Store → Type 0
  P = Bounded max

  Bounded-await : Keeps P (await o)
  unfolding await
  Bounded-await = record {
    at = λ w h.
        let after : P (record w { shared = o.others w.steps w.shared; steps = w.steps + 1 }) =
          record {
            within = others w.steps w.shared h.within;
            pending_Harmless = h.pending_Harmless;
          } in
        elim (Option-cases (o.fault w.steps)) [
          | inl e ↦ rw (e, await) after
          | inr (x, e) ↦ rw (e, await) after
        ];
  }

  Bounded-emit : (e : Event) → Keeps P (emit o e)
  unfolding emit modify
  Bounded-emit e = record {
    at = λ w h. record { within = h.within; pending_Harmless = h.pending_Harmless };
  }

  Bounded-draw : Keeps P (draw o)
  unfolding draw
  Bounded-draw = record {
    at = λ w h. record { within = h.within; pending_Harmless = h.pending_Harmless };
  }

  Bounded-run_store : {A : Type 0} (f : ℕ → Store → A × Store) → Keeps P (run_store o f)
  unfolding run_store
  Bounded-run_store f = record {
    at = λ w h. record { within = h.within; pending_Harmless = h.pending_Harmless };
  }

  Bounded-assign : (f : Database → Database) → Harmless f → Keeps P (assign o f)
  unfolding assign modify
  Bounded-assign f hf = record {
    at = λ w h. record {
      within = h.within;
      pending_Harmless = λ agent tool scope now db. omega (
        arith,
        hf agent tool scope now (w.pending db),
        h.pending_Harmless agent tool scope now db,
      );
    };
  }

  Bounded-save : Keeps P (
      modify {S = World Store}
        λ w. record w { shared = record w.shared { db = w.pending w.db }; pending = λ db. db })
  unfolding modify
  Bounded-save = record {
    at = λ w h. record {
      within = λ agent tool scope.
          omega (arith, h.within agent tool scope, h.pending_Harmless agent tool scope w.now w.db);
      pending_Harmless = λ agent tool scope now db. omega arith;
    };
  }

  ruleset quiet = (keeps_rules, Bounded-await, Bounded-emit, Bounded-draw, Bounded-run_store)

  Bounded-check : (key : Text) (limit : ℕ) → Keeps P (check o key limit)
  unfolding check redis_write
  Bounded-check key limit = search quiet depth 10

  Bounded-issue_limited : (b : Bool) (id : ℕ) → Keeps P (issue_limited o b settings id)
  unfolding issue_limited
  Bounded-issue_limited false id = search quiet
  Bounded-issue_limited true id = search (quiet, Bounded-check) depth 10

  Bounded-record_issued : (h : Text) (ttl : ℕ) → Keeps P (record_issued o h ttl)
  unfolding record_issued redis_write
  Bounded-record_issued h ttl = search quiet

  Bounded-record_revoked : (h : Text) → Keeps P (record_revoked o h)
  unfolding record_revoked redis_write
  Bounded-record_revoked h = search quiet

  Bounded-found : {A : Type 0} (x : Option A) (e : Exn) → Keeps P (found o x e)
  unfolding found
  Bounded-found none e = search quiet
  Bounded-found (some a) e = search quiet

  set_revoked-Harmless : (id t : ℕ) → Harmless (set_revoked o id t)
  set_revoked-Harmless id t agent tool scope now db =
      count_active-revoked agent tool scope id t db.grants now

  Bounded-mark_revoked : (g : Grant) (t : Option ℕ) → Keeps P (mark_revoked o g t)
  unfolding mark_revoked commit utcnow
  Bounded-mark_revoked g (some t) = search quiet
  Bounded-mark_revoked g none =
      search (quiet, Bounded-assign, Bounded-save, set_revoked-Harmless) depth 10

  add_grant-Bounded :
      (agent : ℕ) (tool scope : Text) (account : ConnectedAccount) (w : World Store)
      → P w
      → count_active agent tool scope w.now w.db.grants < max
      → P (add_grant o settings agent tool scope account w).1
  unfolding add_grant ◌>>=◌ draw utcnow modify
  add_grant-Bounded agent tool scope account w h below =
      let u = record w { drawn = w.drawn + 1 } in
      let id = o.random w.drawn in
      elim (held-cases o u) [
        | inl e ↦ rw e (record {
          within = λ agent' tool' scope'.
              count_active-insert (new_grant o settings agent account tool scope id w.now).grant
                w.db.grants max w.now below agent' tool' scope' (h.within agent' tool' scope');
          pending_Harmless = h.pending_Harmless;
        })
        | inr (x, e) ↦ rw e (record { within = h.within; pending_Harmless = h.pending_Harmless })
      ]

  Bounded-issue : (agent : ℕ) (tool scope : Text) → Keeps P (issue o settings agent tool scope)
  unfolding issue
  Bounded-issue agent tool scope = Keeps-bind (await o) _ Bounded-await λ _. record {
    at = λ w h.
        let (same, granted) = authorize-Authorized o settings agent tool scope w in
        bind_at P (authorize o settings agent tool scope) _ w (rw same h) λ account e.
          rw same (add_grant-Bounded agent tool scope account w h (granted account e).below);
  }

  -- Whatever other tasks do that keeps the bound, and whatever fails, a grant request keeps it: no
  -- agent holds more active grants for a tool and scope than `max_active_grants_per_agent_scope`.
  pub request_grant-Bounded :
      (has_cache has_limiter : Bool) (agent_id : ℕ) (tool_name scope : Text) (w : World Store)
      → Bounded max w
      → Bounded max (request_grant o settings has_cache has_limiter agent_id tool_name scope w).1
  unfolding request_grant
  request_grant-Bounded has_cache has_limiter agent_id tool_name scope =
      let keeps : Keeps P
          (request_grant o settings has_cache has_limiter agent_id tool_name scope) =
        search (quiet, Bounded-issue_limited, Bounded-issue, Bounded-record_issued) depth 10 in
      keeps.at

  -- Whatever other tasks do that keeps the bound, and whatever fails, a revocation keeps it: no agent
  -- holds more active grants for a tool and scope than `max_active_grants_per_agent_scope`.
  pub revoke_grant-Bounded :
      (has_cache : Bool) (id : ℕ) (w : World Store)
      → Bounded max w
      → Bounded max (revoke_grant o has_cache id w).1
  unfolding revoke_grant query
  revoke_grant-Bounded has_cache id =
      let keeps : Keeps P (revoke_grant o has_cache id) =
        search (quiet, Bounded-found, Bounded-mark_revoked, Bounded-record_revoked) depth 10 in
      keeps.at
