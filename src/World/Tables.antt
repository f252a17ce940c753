-- ===== src/World/Tables.antt =====
-- Operations that leave the tables alone, where nothing disturbs them.
use credbroker.Common.{◌≡◌, refl}
use credbroker.Exec.{modify}
use credbroker.Exec.Keeps.{Keeps, keeps_rules}
use credbroker.Models.{Database}
use credbroker.World.{World, Event, Outside, await, emit, utcnow, draw}
use credbroker.World.Alone.{Alone, await_alone}

pub record HasTables {S : Type 0} (db : Database) (w : World S) : Type 0 where
  pub same : w.db ≡ db

module _ (o : Outside) {db : Database} where
  open o.redis use {Store}

  pub HasTables-await : Alone o → Keeps (HasTables {S = Store} db) (await o)
  HasTables-await alone = record { at = λ w h. rw (await_alone o alone) (record { same = h.same }) }

  pub HasTables-modify :
      (f : World Store → World Store)
      → ((w : World Store) → (f w).db ≡ w.db)
      → Keeps (HasTables {S = Store} db) (modify f)
  unfolding modify
  HasTables-modify f still = record { at = λ w h. record { same = rw (still w) h.same } }

  pub HasTables-emit : (e : Event) → Keeps (HasTables {S = Store} db) (emit o e)
  unfolding emit
  HasTables-emit e = HasTables-modify _ (λ w. refl)

  pub HasTables-draw : Keeps (HasTables {S = Store} db) (draw o)
  unfolding draw
  HasTables-draw = record { at = λ w h. record { same = h.same } }

  pub HasTables-utcnow : Keeps (HasTables {S = Store} db) (utcnow o)
  unfolding utcnow
  HasTables-utcnow = search keeps_rules

pub ruleset table_rules =
    (keeps_rules, HasTables-await, HasTables-emit, HasTables-draw, HasTables-utcnow)
