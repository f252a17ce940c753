-- ===== src/Reliability/Idempotency/Holds.antt =====
-- An entry of the idempotency store that the operations of other owners leave alone.
use credbroker.Common.{
  ℕ, ◌+◌, ◌*◌, ◌<◌, ◌≡◌, ◌≢◌, refl, inl, inr, Text, Bool, true, false, Option, none, some, text_eq,
  text_eq→eq, text_eq_refl, starts_with-append, if◌then◌else◌, Bool-cases, arith,
}
use credbroker.Exec.{ok, pure, ◌>>=◌}
use credbroker.Json.{Json}
use credbroker.Redis.{Entry, live, second}
use credbroker.Reliability.Idempotency.{
  name, pending_value, pending_marker, get, reserve, complete, release, store_result, owned_by,
  is_pending, decode, loaded,
}
use credbroker.World.{World, Outside, draw, sleep, redis_write}
use credbroker.World.Alone.{Alone, redis_read_alone, redis_write_alone, sleep_alone, stepped}

module _ (o : Outside) where
  open o.redis use {Store, view}

  -- A value is at the key until a time.
  pub record Holds (key v : Text) (deadline : ℕ) (w : World Store) : Type 0 where
    pub at : view w.store (name key) ≡ some (record { value = v; deadline = some deadline })

  -- SET with NX leaves a live entry alone, and other keys.
  pub view-set_nx :
      (now : ℕ) (k v : Text) (ttl : ℕ) (s : Store) (j : Text) (e : Entry)
      → view s j ≡ some e
      → live now (some e) ≡ some e
      → view (o.redis.set_nx now k v ttl s).1 j ≡ some e
  view-set_nx now k v ttl s j e h l = elim (Bool-cases (text_eq k j)) [
    | inl same ↦ rw (o.redis.set_nx_lem now k v ttl s) (ground (arith, text_eq→eq k j same))
    | inr other ↦
        rw (o.redis.set_nx_lem now k v ttl s) (ground (arith, o.redis.view-set now k v ttl s j))
  ]

  module _ (alone : Alone o) (key v : Text) (deadline : ℕ) where
    pub live-Holds :
        (w : World Store)
        → Holds key v deadline w
        → w.now < deadline
        → live w.now (view w.store (name key))
          ≡ some (record { value = v; deadline = some deadline })
    live-Holds w h t = rw h.at (ground arith)

    owned_by_other :
        (other : Text) → v ≢ pending_value other → owned_by (some other) (some v) ≡ false
    unfolding owned_by
    owned_by_other other n = elim (Bool-cases (text_eq v (pending_value other))) [
      | inl same ↦ absurd (n (text_eq→eq _ _ same))
      | inr differs ↦ differs
    ]

    pub get-live :
        (k : Text) (w : World Store)
        → Holds key v deadline w
        → w.now < deadline
        → text_eq (name k) (name key) ≡ true
        → o.redis.get w.now (name k) w.store ≡ some v
    get-live k w h t same =
        rw (o.redis.get_lem, text_eq→eq (name k) (name key) same, live-Holds w h t) refl

    store_result-Holds :
        (b : Bool) (window : ℕ) (k : Text) (result : Json) (w : World Store)
        → Holds key v deadline w
        → text_eq (name k) (name key) ≡ false
        → Holds key v deadline ((if b then store_result o window k result else pure tt) w).1
    unfolding store_result pure
    store_result-Holds false window k result w h n = h
    store_result-Holds true window k result w h n =
        rw (redis_write_alone o alone) (record { at = rw (o.redis.view-set, n) h.at })

    delete-Holds :
        (b : Bool) (k : Text) (w : World Store)
        → Holds key v deadline w
        → text_eq (name k) (name key) ≡ false
        → Holds key v deadline
            ((if b then redis_write o (λ now s. (tt, o.redis.delete (name k) s)) else pure tt) w).1
    unfolding pure
    delete-Holds false k w h n = h
    delete-Holds true k w h n =
        rw (redis_write_alone o alone) (record { at = rw (o.redis.view-delete, n) h.at })

    decode-Holds :
        (value : Option Text) (w : World Store)
        → Holds key v deadline w
        → Holds key v deadline (decode o value w).1
    unfolding decode loaded ◌>>=◌
    decode-Holds none w h = h
    decode-Holds (some value) w h = ground (arith, o.loads value)

    pub get-Holds :
        (k : Text) (w : World Store) → Holds key v deadline w → Holds key v deadline (get o k w).1
    unfolding get ◌>>=◌
    get-Holds k w h =
        rw (redis_read_alone o alone) (decode-Holds _ (stepped w) (record { at = h.at }))

    pub reserve-Holds :
        (k : Text) (w : World Store)
        → Holds key v deadline w
        → w.now < deadline
        → Holds key v deadline (reserve o k w).1
    unfolding reserve draw ◌>>=◌
    reserve-Holds k w h t =
        rw (redis_write_alone o alone)
          (record { at = view-set_nx _ _ _ _ w.store _ _ h.at (ground arith) })

    pub complete-Holds :
        (window : ℕ) (k : Text) (result : Json) (other : Text) (w : World Store)
        → Holds key v deadline w
        → w.now < deadline
        → v ≢ pending_value other
        → Holds key v deadline (complete o window k result (some other) w).1
    unfolding complete draw ◌>>=◌
    complete-Holds window k result other w h t n =
        rw (redis_read_alone o alone) (elim (Bool-cases (text_eq (name k) (name key))) [
          | inl same ↦ rw (get-live k w h t same, owned_by_other other n) (record { at = h.at })
          | inr differs ↦
              store_result-Holds _ window k result (stepped w) (record { at = h.at }) differs
        ])

    pub release-Holds :
        (k other : Text) (w : World Store)
        → Holds key v deadline w
        → w.now < deadline
        → v ≢ pending_value other
        → Holds key v deadline (release o k (some other) w).1
    unfolding release draw ◌>>=◌
    release-Holds k other w h t n =
        rw (redis_read_alone o alone) (elim (Bool-cases (text_eq (name k) (name key))) [
          | inl same ↦ rw (get-live k w h t same, owned_by_other other n) (ground (arith, h.at))
          | inr differs ↦ delete-Holds _ k (stepped w) (record { at = h.at }) differs
        ])

    pub sleep-Holds :
        (d : ℕ) (w : World Store) → Holds key v deadline w → Holds key v deadline (sleep o d w).1
    sleep-Holds d w h = rw (sleep_alone o alone) (record { at = h.at })

    -- Another claim of the key finds the marker.
    pub reserve-refused :
        (w : World Store)
        → Holds key v deadline w
        → w.now < deadline
        → (reserve o key w).0 ≡ ok none
    unfolding reserve draw ◌>>=◌ pure
    reserve-refused w h t =
        rw (redis_write_alone o alone, o.redis.set_nx_lem, live-Holds w h t) refl

  -- The owner's result is stored.
  pub complete-owner :
      (alone : Alone o) (key owner : Text) (deadline window : ℕ) (result : Json) (w : World Store)
      → Holds key (pending_value owner) deadline w
      → w.now < deadline
      → Holds key
          (o.dumps result)
          (w.now + window * second)
          (complete o window key result (some owner) w).1
        × ((complete o window key result (some owner) w).1.now ≡ w.now)
  unfolding complete store_result owned_by ◌>>=◌
  complete-owner alone key owner deadline window result w h t =
      rw
        (
          redis_read_alone o alone,
          get-live alone key (pending_value owner) deadline key w h t (text_eq_refl (name key)),
          text_eq_refl (pending_value owner),
          redis_write_alone o alone,
        )
        (record { at = rw (o.redis.view-set, text_eq_refl (name key)) refl }, refl)

  -- And the owner's release frees the key.
  pub release-owner :
      (alone : Alone o) (key owner : Text) (deadline : ℕ) (w : World Store)
      → Holds key (pending_value owner) deadline w
      → w.now < deadline
      → view (release o key (some owner) w).1.store (name key) ≡ none
  unfolding release owned_by is_pending ◌>>=◌
  release-owner alone key owner deadline w h t =
      rw
        (
          redis_read_alone o alone,
          get-live alone key (pending_value owner) deadline key w h t (text_eq_refl (name key)),
          text_eq_refl (pending_value owner),
          starts_with-append pending_marker,
          redis_write_alone o alone,
          o.redis.view-delete,
          text_eq_refl (name key),
        )
        refl
