-- ===== src/World/Trace.antt =====
-- What an operation's events show, and the actions that leave them alone.
use credbroker.Common.{ℕ, ◌+◌, Text, Option, Option-cases, inl, inr, List, ◌∷◌, ◌≡◌, refl}
use credbroker.Exec.{modify}
use credbroker.Exec.Keeps.{Keeps, keeps_rules}
use credbroker.Models.{Database}
use credbroker.Reliability.Breaker.{CircuitBreaker}
use credbroker.World.{
  World, Event, Outside, M, in_session, await, emit, utcnow, draw, query, assign, commit, rollback,
  sleep, redis_read, redis_write, run_store,
}

-- A predicate of the state that no part of an invocation can break: not an await, a change of Redis,
-- the breakers or the secrets, an event, time that passes, nor an unsaved change and its commit where
-- the change leaves the grants as they are.
pub record Frame (o : Outside) (I : World o.redis.Store → Type 0) : Type 0 where
  pub on_await :
      (w : World o.redis.Store)
      → I w
      → I (record w { shared = o.others w.steps w.shared; steps = w.steps + 1 })
  pub on_store :
      (w : World o.redis.Store) (s : o.redis.Store)
      → I w
      → I (record w { shared = record w.shared { store = s } })
  pub on_circuits :
      (w : World o.redis.Store) (c : Text → Option CircuitBreaker)
      → I w
      → I (record w { shared = record w.shared { circuits = c } })
  pub on_secrets :
      (w : World o.redis.Store) (s : List Text)
      → I w
      → I (record w { shared = record w.shared { secrets = s } })
  pub on_emit : (w : World o.redis.Store) (e : Event) → I w → I (record w { trace = e ∷ w.trace })
  pub on_draw : (w : World o.redis.Store) → I w → I (record w { drawn = w.drawn + 1 })
  pub on_sleep :
      (w : World o.redis.Store) (d : ℕ)
      → I w
      → I (record w { shared = record w.shared { now = w.now + d; monotonic = w.monotonic + d } })
  pub on_assign :
      (w : World o.redis.Store) (f : Database → Database)
      → ((db : Database) → (f db).grants ≡ db.grants)
      → I w
      → I (record w { pending = λ db. f (w.pending db) })
  pub on_reset : (w : World o.redis.Store) → I w → I (record w { pending = λ db. db })
  pub on_commit :
      (w : World o.redis.Store)
      → I w
      → I (record w { shared = record w.shared { db = w.pending w.db }; pending = λ db. db })

-- Every state: nothing is asked of it but its trace.
abbrev pub Anything : {S : Type 0} → World S → Type 0
Anything w = Unit

pub anything : (o : Outside) → Frame o Anything
anything o = record {
  on_await = λ w i. tt;
  on_store = λ w s i. tt;
  on_circuits = λ w c i. tt;
  on_secrets = λ w s i. tt;
  on_emit = λ w e i. tt;
  on_draw = λ w i. tt;
  on_sleep = λ w d i. tt;
  on_assign = λ w f same i. tt;
  on_reset = λ w i. tt;
  on_commit = λ w i. tt;
}

-- A predicate of the trace, beside one of the whole state.
pub record OnTrace {S : Type 0} (I : World S → Type 0) (Q : List Event → Type 0) (w : World S)
    : Type 0 where
  pub holds : Q w.trace
  pub frame_lem : I w

module _ (o : Outside) {I : World o.redis.Store → Type 0} {Q : List Event → Type 0}
    (frame : Frame o I) where
  open o.redis use {Store}

  -- A change of the state that leaves the trace alone.
  pub Keeps-modify :
      (f : World Store → World Store)
      → ((w : World Store) → (f w).trace ≡ w.trace)
      → ((w : World Store) → I w → I (f w))
      → Keeps (OnTrace I Q) (modify f)
  unfolding modify
  Keeps-modify f same kept = record {
    at = λ w h. record { holds = rw (same w) h.holds; frame_lem = kept w h.frame_lem };
  }

  pub Keeps-await : Keeps (OnTrace I Q) (await o)
  unfolding await
  Keeps-await = record {
    at = λ w h.
        let after : OnTrace I Q
            (record w { shared = o.others w.steps w.shared; steps = w.steps + 1 }) =
          record { holds = h.holds; frame_lem = frame.on_await w h.frame_lem } in
        elim (Option-cases (o.fault w.steps)) [
          | inl e ↦ rw (e, await) after
          | inr (x, e) ↦ rw (e, await) after
        ];
  }

  pub Keeps-emit :
      (e : Event) → ((t : List Event) → Q t → Q (e ∷ t)) → Keeps (OnTrace I Q) (emit o e)
  unfolding emit modify
  Keeps-emit e next = record {
    at = λ w h. record { holds = next w.trace h.holds; frame_lem = frame.on_emit w e h.frame_lem };
  }

  pub Keeps-utcnow : Keeps (OnTrace I Q) (utcnow o)
  unfolding utcnow
  Keeps-utcnow = search keeps_rules

  pub Keeps-draw : Keeps (OnTrace I Q) (draw o)
  unfolding draw
  Keeps-draw = record {
    at = λ w h. record { holds = h.holds; frame_lem = frame.on_draw w h.frame_lem };
  }

  pub Keeps-query : {A : Type 0} (f : Database → A) → Keeps (OnTrace I Q) (query o f)
  unfolding query
  Keeps-query f = search (keeps_rules, Keeps-await)

  pub Keeps-assign :
      (f : Database → Database)
      → ((db : Database) → (f db).grants ≡ db.grants)
      → Keeps (OnTrace I Q) (assign o f)
  unfolding assign
  Keeps-assign f same = Keeps-modify _ (λ w. refl) (λ w i. frame.on_assign w f same i)

  pub Keeps-reset :
      Keeps (OnTrace I Q) (modify λ (w : World Store). record w { pending = λ db. db })
  Keeps-reset = Keeps-modify _ (λ w. refl) frame.on_reset

  Keeps-save : Keeps (OnTrace I Q) (
      modify λ (w : World Store). record w {
        shared = record w.shared { db = w.pending w.db };
        pending = λ db. db;
      })
  Keeps-save = Keeps-modify _ (λ w. refl) frame.on_commit

  pub Keeps-commit : Keeps (OnTrace I Q) (commit o)
  unfolding commit
  Keeps-commit = search (keeps_rules, Keeps-await, Keeps-save)

  pub Keeps-rollback : Keeps (OnTrace I Q) (rollback o)
  unfolding rollback
  Keeps-rollback = search (keeps_rules, Keeps-await, Keeps-reset)

  Keeps-pass :
      (d : ℕ)
      → Keeps (OnTrace I Q) (
          modify λ (w : World Store). record w {
            shared = record w.shared { now = w.now + d; monotonic = w.monotonic + d };
          })
  Keeps-pass d = Keeps-modify _ (λ w. refl) (λ w i. frame.on_sleep w d i)

  pub Keeps-sleep : (d : ℕ) → Keeps (OnTrace I Q) (sleep o d)
  unfolding sleep
  Keeps-sleep d = search (keeps_rules, Keeps-await, Keeps-pass)

  pub Keeps-redis_read : {A : Type 0} (f : ℕ → Store → A) → Keeps (OnTrace I Q) (redis_read o f)
  unfolding redis_read
  Keeps-redis_read f = search (keeps_rules, Keeps-await)

  Keeps-run_store : {A : Type 0} (f : ℕ → Store → A × Store) → Keeps (OnTrace I Q) (run_store o f)
  unfolding run_store
  Keeps-run_store f = record {
    at = λ w h. record {
      holds = h.holds;
      frame_lem = frame.on_store w (f w.now w.store).1 h.frame_lem;
    };
  }

  pub Keeps-redis_write :
      {A : Type 0} (f : ℕ → Store → A × Store) → Keeps (OnTrace I Q) (redis_write o f)
  unfolding redis_write
  Keeps-redis_write f = search (keeps_rules, Keeps-await, Keeps-run_store)

  pub Keeps-in_session :
      {A : Type 0} (m : M o A) → Keeps (OnTrace I Q) m → Keeps (OnTrace I Q) (in_session o m)
  unfolding in_session
  Keeps-in_session m k = search (keeps_rules, Keeps-await, Keeps-reset) depth 12

-- Any events may be emitted.
abbrev pub AnyEvents : List Event → Type 0
AnyEvents t = Unit

pub any_event :
    (o : Outside) {I : World o.redis.Store → Type 0} (frame : Frame o I) (e : Event)
    → Keeps (OnTrace I AnyEvents) (emit o e)
any_event o frame e = Keeps-emit o frame e (λ t g. tt)

-- The actions that emit nothing keep every predicate of the trace, in a frame.
pub ruleset silent = (
  keeps_rules, Keeps-await, Keeps-utcnow, Keeps-draw, Keeps-query, Keeps-reset, Keeps-commit,
  Keeps-in_session, Keeps-rollback, Keeps-sleep, Keeps-redis_read, Keeps-redis_write,
)
