-- ===== src/Reliability/Idempotency/Apart.antt =====
-- The idempotency store, which shares Redis with the grant cache, leaves the revocation marks alone.
use credbroker.Common.{
  ℕ, ◌≡◌, refl, Text, Bool, true, false, Option, none, some, if◌then◌else◌, text_eq, text_eq-heads,
  starts_with, is_some, Bool-cases, inl, inr,
}
use credbroker.Cache.GrantCache.{revoked_key}
use credbroker.Exec.{pure, raise, ◌>>=◌}
use credbroker.Json.{Json, null}
use credbroker.Redis.{live}
use credbroker.Reliability.Idempotency.{
  name, pending_marker, get, reserve, complete, release, store_result, decode, loaded,
}
use credbroker.Reliability.Idempotency.Exclusive.{
  Call, perform, get_call, reserve_call, complete_call, release_call, wait_call,
}
use credbroker.World.{World, Outside, draw, sleep, redis_write}
use credbroker.World.Alone.{Alone, redis_read_alone, redis_write_alone, sleep_alone, stepped}

name-apart : (k h : Text) → text_eq (name k) (revoked_key h) ≡ false
name-apart k h = text_eq-heads _ _ _ _ refl

module _ (o : Outside) (alone : Alone o) (h : Text) where
  open o.redis use {Store, view}

  abbrev Same : World Store → World Store → Type 0
  Same u w = view u.store (revoked_key h) ≡ view w.store (revoked_key h)

  loaded-Same : (j : Option Json) (w : World Store) → Same (loaded o j w).1 w
  unfolding loaded raise pure
  loaded-Same none w = refl
  loaded-Same (some null) w = refl
  loaded-Same (some value) w = refl

  decode-Same : (value : Option Text) (w : World Store) → Same (decode o value w).1 w
  unfolding decode raise pure
  decode-Same none w = refl
  decode-Same (some value) w = elim (Bool-cases (starts_with value pending_marker)) [
    | inl marked ↦ rw marked refl
    | inr plain ↦ rw plain (loaded-Same (o.loads value) w)
  ]

  store_result-Same :
      (b : Bool) (window : ℕ) (k : Text) (result : Json) (w : World Store)
      → Same ((if b then store_result o window k result else pure tt) w).1 w
  unfolding store_result pure
  store_result-Same false window k result w = refl
  store_result-Same true window k result w =
      rw (redis_write_alone o alone, o.redis.view-set, name-apart k h) refl

  delete-Same :
      (b : Bool) (k : Text) (w : World Store)
      → Same
          ((if b then redis_write o (λ now s. (tt, o.redis.delete (name k) s)) else pure tt) w).1
          w
  unfolding pure
  delete-Same false k w = refl
  delete-Same true k w = rw (redis_write_alone o alone, o.redis.view-delete, name-apart k h) refl

  set_nx-Same :
      (now : ℕ) (k v : Text) (ttl : ℕ) (s : Store)
      → view (o.redis.set_nx now (name k) v ttl s).1 (revoked_key h) ≡ view s (revoked_key h)
  set_nx-Same now k v ttl s = elim (Bool-cases (is_some (live now (view s (name k))))) [
    | inl there ↦ rw (o.redis.set_nx_lem, there) refl
    | inr free ↦ rw (o.redis.set_nx_lem, free, o.redis.view-set, name-apart k h) refl
  ]

  get-Same : (k : Text) (w : World Store) → Same (get o k w).1 w
  unfolding get ◌>>=◌
  get-Same k w = rw (redis_read_alone o alone) (decode-Same _ (stepped w))

  reserve-Same : (k : Text) (w : World Store) → Same (reserve o k w).1 w
  unfolding reserve draw ◌>>=◌ pure
  reserve-Same k w = rw (redis_write_alone o alone) (set_nx-Same _ k _ _ w.store)

  complete-Same :
      (window : ℕ) (k : Text) (result : Json) (owner : Text) (w : World Store)
      → Same (complete o window k result (some owner) w).1 w
  unfolding complete ◌>>=◌
  complete-Same window k result owner w =
      rw (redis_read_alone o alone) (store_result-Same _ window k result (stepped w))

  release-Same : (k owner : Text) (w : World Store) → Same (release o k (some owner) w).1 w
  unfolding release ◌>>=◌
  release-Same k owner w = rw (redis_read_alone o alone) (delete-Same _ k (stepped w))

  sleep-Same : (d : ℕ) (w : World Store) → Same (sleep o d w).1 w
  sleep-Same d w = rw (sleep_alone o alone) refl

  pub perform-Same :
      (c : Call) (w : World Store)
      → view (perform o c w).store (revoked_key h) ≡ view w.store (revoked_key h)
  unfolding perform
  perform-Same (get_call k) w = get-Same k w
  perform-Same (reserve_call k) w = reserve-Same k w
  perform-Same (complete_call window k result owner) w = complete-Same window k result owner w
  perform-Same (release_call k owner) w = release-Same k owner w
  perform-Same (wait_call d) w = sleep-Same d w
