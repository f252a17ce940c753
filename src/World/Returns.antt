-- ===== src/World/Returns.antt =====
-- The primitive operations always return where no await fails, whatever other tasks do.
use credbroker.Common.{ℕ, none, ◌≡◌, refl, arith}
use credbroker.Exec.Returns.{Returns, returns_rules}
use credbroker.Models.{Database}
use credbroker.Exec.{ok, ◌>>=◌}
use credbroker.World.{
  World, M, in_session, Event, Outside, await, emit, utcnow, draw, query, assign, commit, rollback,
  redis_read,
}

-- The world with a new database session.
abbrev pub opened : {S : Type 0} → World S → World S
opened w = record w { pending = λ db. db }

module _ (o : Outside) (no_fault : (n : ℕ) → o.fault n ≡ none) where
  open o.redis use {Store}

  pub Returns-await : Returns (await o)
  unfolding await
  Returns-await = record { from = λ w. (tt, ground (arith, no_fault w.steps)) }

  pub Returns-query : {A : Type 0} (f : Database → A) → Returns (query o f)
  unfolding query
  Returns-query f = search (returns_rules, Returns-await)

  pub Returns-commit : Returns (commit o)
  unfolding commit
  Returns-commit = search (returns_rules, Returns-await)

  pub Returns-rollback : Returns (rollback o)
  unfolding rollback
  Returns-rollback = search (returns_rules, Returns-await)

  pub Returns-redis_read : {A : Type 0} (f : ℕ → Store → A) → Returns (redis_read o f)
  unfolding redis_read
  Returns-redis_read f = search (returns_rules, Returns-await)

  pub await-ok : (w : World Store) → (await o w).0 ≡ ok tt
  unfolding await
  await-ok w = ground (arith, no_fault w.steps)

  pub in_session-result :
      {A : Type 0} (body : M o A) (w : World Store) → (in_session o body w).0 ≡ (body (opened w)).0
  unfolding in_session ◌>>=◌
  in_session-result body w = rw await-ok refl

module _ (o : Outside) where
  open o.redis use {Store}

  pub Returns-emit : (e : Event) → Returns (emit o e)
  unfolding emit
  Returns-emit e = search returns_rules

  pub Returns-utcnow : Returns (utcnow o)
  unfolding utcnow
  Returns-utcnow = search returns_rules

  pub Returns-assign : (f : Database → Database) → Returns (assign o f)
  unfolding assign
  Returns-assign f = search returns_rules

  pub Returns-draw : Returns (draw o)
  unfolding draw
  Returns-draw = record { from = λ w. (o.random w.drawn, refl) }

pub ruleset returning = (
  returns_rules, Returns-await, Returns-query, Returns-commit, Returns-rollback, Returns-redis_read,
  Returns-emit, Returns-utcnow, Returns-assign, Returns-draw,
)
