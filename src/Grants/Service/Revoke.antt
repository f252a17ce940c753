-- ===== src/Grants/Service/Revoke.antt =====
-- What `revoke_grant` leaves in the tables.
use credbroker.Common.{
  ℕ, ◌+◌, ◌≡◌, refl, ap, inl, inr, Text, Bool, true, false, Option, none, some, List, [], ◌∷◌, ◌==◌,
  text_eq, if◌then◌else◌, Bool-cases, arith,
}
use credbroker.Cache.GrantCache.{record_revoked}
use credbroker.Exec.{ok, pure, ◌>>=◌, ◌>>◌}
use credbroker.Grants.Service.{found, set_revoked, mark_revoked, revoke_grant}
use credbroker.Models.{Grant, Database, find, update_where}
use credbroker.World.{World, Outside, utcnow, assign, commit}
use credbroker.World.Alone.{Alone, await_alone, query_alone, redis_write_alone, stepped}

abbrev pub by_hash : Text → Grant → Bool
by_hash h g = text_eq g.grant_token_hash h

abbrev pub by_id : ℕ → Grant → Bool
by_id id g = g.id == id

-- The row with a token's hash, after a revocation by the row's id.
pub find-set_revoked :
    (h : Text) (id t : ℕ) (gs : List Grant) (g : Grant)
    → find (by_hash h) gs ≡ some g
    → g.id ≡ id
    → find (by_hash h) (update_where (by_id id) (λ x. record x { revoked_at = some t }) gs)
      ≡ some (record g { revoked_at = some t })
unfolding find update_where
find-set_revoked h id t [] g e i = absurd (ground arith)
find-set_revoked h id t (x ∷ gs) g e i = elim (Bool-cases (by_hash h x)) [
  | inl hit ↦
      let this : x ≡ g = ground arith in
      let same : (x.id == id) ≡ true = ground (arith, ap (λ y. y.id) this) in
      let changed : record x { revoked_at = some t } ≡ record g { revoked_at = some t } =
        ground (arith, this) in
      rw (same, hit) (ap some changed)
  | inr miss ↦
      let rest = find-set_revoked h id t gs g (ground arith) i in
      elim (Bool-cases (x.id == id)) [
        | inl same ↦ rw (same, miss) rest
        | inr other ↦ rw (other, miss) rest
      ]
]

module _ (o : Outside) (alone : Alone o) where
  open o.redis use {Store}

  cached-db :
      (c : Bool) (h : Text) (g : Grant) (w : World Store)
      → (((if c then record_revoked o h else pure tt) >> pure g) w).1.db ≡ w.db
  unfolding record_revoked ◌>>=◌
  cached-db false h g w = refl
  cached-db true h g w = rw (redis_write_alone o alone, redis_write_alone o alone) refl

  mark_revoked_alone :
      (g : Grant) (t : Option ℕ) (w : World Store)
      → ((db : Database) → w.pending db ≡ db)
      → t ≡ none
      → mark_revoked o g t w ≡ (
        ok (record g { revoked_at = some w.now }),
        record w {
          steps = w.steps + 1;
          shared = record w.shared { db = set_revoked o g.id w.now w.db };
          pending = λ db. db;
        },
      )
  unfolding mark_revoked utcnow assign commit ◌>>=◌
  mark_revoked_alone g none w clean e = rw (await_alone o alone, clean) refl
  mark_revoked_alone g (some t) w clean e = absurd (ground arith)

  -- Undisturbed, and in a new session, a revocation of a grant that is not revoked sets its column.
  pub revoke_grant-db :
      (c : Bool) (id : ℕ) (w : World Store) (g : Grant)
      → ((db : Database) → w.pending db ≡ db)
      → find (by_id id) w.db.grants ≡ some g
      → g.revoked_at ≡ none
      → (revoke_grant o c id w).1.db ≡ set_revoked o g.id w.now w.db
  unfolding revoke_grant found mark_revoked utcnow assign commit ◌>>=◌
  revoke_grant-db c id w g clean e n =
      rw (query_alone o alone, e)
        (rw (mark_revoked_alone g g.revoked_at (stepped w) clean n)
          (cached-db c g.grant_token_hash (record g { revoked_at = some w.now }) _))
