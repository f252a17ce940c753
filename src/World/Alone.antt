-- ===== src/World/Alone.antt =====
-- Operations that nothing disturbs: no other task acts during an await, and no await fails.
use credbroker.Common.{ℕ, ◌+◌, none, ◌≡◌, refl, arith}
use credbroker.Exec.Keeps.{Keeps, keeps_rules}
use credbroker.Exec.{ok, ◌>>=◌}
use credbroker.Models.{Database}
use credbroker.World.Returns.{opened}
use credbroker.World.{
  M, in_session, Shared, World, Outside, await, draw, sleep, query, redis_read, redis_write,
  run_store,
}

pub record Alone (o : Outside) : Type 0 where
  pub no_others : (n : ℕ) (s : Shared o.redis.Store) → o.others n s ≡ s
  pub no_fault : (n : ℕ) → o.fault n ≡ none

-- The world one await later.
abbrev pub stepped : {S : Type 0} → World S → World S
stepped w = record w { steps = w.steps + 1 }

module _ (o : Outside) (alone : Alone o) where
  open o.redis use {Store}

  pub await_alone : (w : World Store) → await o w ≡ (ok tt, stepped w)
  unfolding await
  await_alone w = ground (arith, alone.no_fault w.steps, alone.no_others w.steps w.shared)

  pub redis_read_alone :
      {A : Type 0} (f : ℕ → Store → A) (w : World Store)
      → redis_read o f w ≡ (ok (f w.now w.store), stepped w)
  unfolding redis_read ◌>>=◌
  redis_read_alone f w = rw await_alone refl

  pub redis_write_alone :
      {A : Type 0} (f : ℕ → Store → A × Store) (w : World Store)
      → redis_write o f w ≡ (
        ok (f w.now w.store).0,
        record w { steps = w.steps + 1; shared = record w.shared { store = (f w.now w.store).1 } },
      )
  unfolding redis_write run_store ◌>>=◌
  redis_write_alone f w = rw await_alone refl

  pub query_alone :
      {A : Type 0} (f : Database → A) (w : World Store) → query o f w ≡ (ok (f w.db), stepped w)
  unfolding query ◌>>=◌
  query_alone f w = rw await_alone refl

module _ (o : Outside) (alone : Alone o) where
  open o.redis use {Store}

  pub sleep_alone :
      (d : ℕ) (w : World Store)
      → sleep o d w ≡ (
        ok tt,
        record w {
          steps = w.steps + 1;
          shared = record w.shared { now = w.now + d; monotonic = w.monotonic + d };
        },
      )
  unfolding sleep ◌>>=◌
  sleep_alone d w = rw (await_alone o alone) refl

  pub in_session-db :
      {A : Type 0} (body : M o A) (w : World Store)
      → (in_session o body w).1.db ≡ (body (opened w)).1.db
  unfolding in_session ◌>>=◌
  in_session-db body w = rw (await_alone o alone) refl

pub ruleset alone_rules = (await_alone, redis_read_alone, redis_write_alone, query_alone)

-- The time stands still but where an operation sleeps.
pub record AtTime {S : Type 0} (t : ℕ) (w : World S) : Type 0 where
  pub is : w.now ≡ t

module _ (o : Outside) {t : ℕ} where
  open o.redis use {Store}

  pub AtTime-await : Alone o → Keeps (AtTime {S = Store} t) (await o)
  AtTime-await alone = record { at = λ w h. rw (await_alone o alone) (record { is = h.is }) }

  pub AtTime-draw : Keeps (AtTime {S = Store} t) (draw o)
  unfolding draw
  AtTime-draw = record { at = λ w h. record { is = h.is } }

  pub AtTime-redis_read :
      {A : Type 0} (f : ℕ → Store → A) → Alone o → Keeps (AtTime {S = Store} t) (redis_read o f)
  AtTime-redis_read f alone = record {
    at = λ w h. rw (redis_read_alone o alone) (record { is = h.is });
  }

  pub AtTime-redis_write :
      {A : Type 0} (f : ℕ → Store → A × Store)
      → Alone o
      → Keeps (AtTime {S = Store} t) (redis_write o f)
  AtTime-redis_write f alone = record {
    at = λ w h. rw (redis_write_alone o alone) (record { is = h.is });
  }

pub ruleset at_time =
    (keeps_rules, AtTime-await, AtTime-draw, AtTime-redis_read, AtTime-redis_write)
