-- ===== src/Cache/GrantCache/Revocation.antt =====
-- A revocation mark stays for its lifetime, whatever else the stores that share Redis do.
use credbroker.Common.{
  ℕ, ◌+◌, ◌*◌, ◌<◌, ◌≤◌, ◌≡◌, refl, ap, ◌∙◌, inl, inr, Text, Bool, true, false, List, [], ◌∷◌,
  codes, text_eq, text_eq_refl, if◌then◌else◌, Bool-cases, ◌==◌, leb, arith,
}
use credbroker.Cache.GrantCache.{
  revoked_key, default_revoked_ttl_seconds, record_issued, record_revoked, is_revoked,
}
use credbroker.Cache.RateLimiter.{check, counter_key, window_index, window_seconds}
use credbroker.Exec.{ok, pure, ◌>>=◌, ◌>>◌}
use credbroker.Exec.Keeps.{Keeps}
use credbroker.Redis.{second}
use credbroker.Reliability.Idempotency.Exclusive.{now-perform}
use credbroker.Reliability.Idempotency.Apart.{perform-Same}
use credbroker.World.{World, Outside, sleep, redis_write}
use credbroker.World.Alone.{
  Alone, AtTime, at_time, redis_read_alone, redis_write_alone, sleep_alone,
}
use credbroker.Cache.GrantCache.Calls.{
  CacheCall, Marked, carry_out, carry_out_all, check_call, store_call, counter-apart, issued-apart,
  issued_call, revoked_call, wait_call, waiting, waiting-grows,
}

module _ (o : Outside) where
  open o.redis use {Store, view}

  module _ (alone : Alone o) (h : Text) (until : ℕ) where
    -- The view of the mark's key is all that counts.
    kept :
        (w u : World Store)
        → view u.store (revoked_key h) ≡ view w.store (revoked_key h)
        → Marked o h until w
        → Marked o h until u
    kept w u same m = record {
      deadline = m.deadline;
      value = m.value;
      at = rw same m.at;
      lasts = m.lasts;
    }

    issued-view :
        (h' : Text) (ttl : ℕ) (w : World Store)
        → view (record_issued o h' ttl w).1.store (revoked_key h) ≡ view w.store (revoked_key h)
    unfolding record_issued
    issued-view h' ttl w = rw (redis_write_alone o alone, o.redis.view-set, issued-apart h' h) refl

    limited-view :
        (b allowed : Bool) (key : Text) (n : ℕ) (w : World Store)
        → view
            (((if b
                  then redis_write o
                      (λ now s. (tt, o.redis.expire now (counter_key key n) window_seconds s))
                  else pure tt)
                >> pure allowed)
              w).1.store
            (revoked_key h)
          ≡ view w.store (revoked_key h)
    unfolding ◌>>=◌
    limited-view false allowed key n w = refl
    limited-view true allowed key n w =
        rw (redis_write_alone o alone, o.redis.view-expire, counter-apart key n h) refl

    check-view :
        (key : Text) (limit : ℕ) (w : World Store)
        → view (check o key limit w).1.store (revoked_key h) ≡ view w.store (revoked_key h)
    unfolding check ◌>>=◌
    check-view key limit w =
        let n = window_index w.now in
        let counted = o.redis.incr w.now (counter_key key n) w.store in
        rw (redis_write_alone o alone) (
          limited-view (counted.0 == 1) (leb counted.0 limit) key n
            (record w { steps = w.steps + 1; shared = record w.shared { store = counted.1 } })
          ∙ rw (o.redis.view-incr, counter-apart key n h) refl)

    sleep-view :
        (d : ℕ) (w : World Store)
        → view (sleep o d w).1.store (revoked_key h) ≡ view w.store (revoked_key h)
    sleep-view d w = rw (sleep_alone o alone) refl

    revoked-Marked :
        (h' : Text) (w : World Store)
        → Marked o h until w
        → until ≤ w.now + default_revoked_ttl_seconds * second
        → Marked o h until (record_revoked o h' w).1
    unfolding record_revoked ◌>>=◌
    revoked-Marked h' w m t =
        rw (redis_write_alone o alone, redis_write_alone o alone)
          (elim (Bool-cases (text_eq (revoked_key h') (revoked_key h))) [
            | inl same ↦ record {
              deadline = w.now + default_revoked_ttl_seconds * second;
              value = codes "1";
              at = rw (o.redis.view-delete, issued-apart h' h, o.redis.view-set, same) refl;
              lasts = t;
            }
            | inr other ↦
                kept w _ (rw (o.redis.view-delete, issued-apart h' h, o.redis.view-set, other) refl)
                  m
          ])

    carry_out-Marked :
        (c : CacheCall) (w : World Store)
        → Marked o h until w
        → until ≤ w.now + default_revoked_ttl_seconds * second
        → Marked o h until (carry_out o c w)
    unfolding carry_out
    carry_out-Marked (issued_call h' ttl) w m t = kept w _ (issued-view h' ttl w) m
    carry_out-Marked (revoked_call h') w m t = revoked-Marked h' w m t
    carry_out-Marked (check_call key limit) w m t = kept w _ (check-view key limit w) m
    carry_out-Marked (store_call c) w m t = kept w _ (perform-Same o alone h c w) m
    carry_out-Marked (wait_call d) w m t = kept w _ (sleep-view d w) m

    -- Only waiting takes time.
    AtTime-issued : (t : ℕ) (h' : Text) (ttl : ℕ) → Keeps (AtTime t) (record_issued o h' ttl)
    unfolding record_issued
    AtTime-issued t h' ttl = search at_time

    AtTime-revoked : (t : ℕ) (h' : Text) → Keeps (AtTime t) (record_revoked o h')
    unfolding record_revoked
    AtTime-revoked t h' = search at_time

    AtTime-check : (t : ℕ) (key : Text) (limit : ℕ) → Keeps (AtTime t) (check o key limit)
    unfolding check
    AtTime-check t key limit = search at_time depth 10

    now-sleep : (d : ℕ) (w : World Store) → (sleep o d w).1.now ≡ w.now + d
    now-sleep d w = rw (sleep_alone o alone) refl

    now-carry_out :
        (c : CacheCall) (cs : List CacheCall) (w : World Store)
        → (carry_out o c w).now + waiting cs ≡ w.now + waiting (c ∷ cs)
    unfolding carry_out
    now-carry_out (issued_call h' ttl) cs w =
        ap (λ t. t + waiting cs) ((AtTime-issued w.now h' ttl).at w (record { is = refl })).is
    now-carry_out (revoked_call h') cs w =
        ap (λ t. t + waiting cs) ((AtTime-revoked w.now h').at w (record { is = refl })).is
    now-carry_out (check_call key limit) cs w =
        ap (λ t. t + waiting cs) ((AtTime-check w.now key limit).at w (record { is = refl })).is
    now-carry_out (store_call c) cs w = omega (arith, now-perform o alone [] [] 0 c w)
    now-carry_out (wait_call d) cs w = omega (arith, now-sleep d w)

    carry_out_all-Marked :
        (cs : List CacheCall) (w : World Store)
        → Marked o h until w
        → until ≤ w.now + default_revoked_ttl_seconds * second
        → Marked o h until (carry_out_all o cs w)
          × ((carry_out_all o cs w).now ≡ w.now + waiting cs)
    unfolding carry_out_all
    carry_out_all-Marked [] w m t = (m, omega arith)
    carry_out_all-Marked (c ∷ cs) w m t =
        let step = now-carry_out c cs w in
        let (later, now) =
          carry_out_all-Marked cs (carry_out o c w) (carry_out-Marked c w m t)
            (omega (arith, step, waiting-grows c cs)) in
        (later, omega (arith, step, now))

    is_revoked-Marked :
        (w : World Store) → Marked o h until w → w.now < until → (is_revoked o h w).0 ≡ ok true
    unfolding is_revoked
    is_revoked-Marked w m t =
        let long : leb m.deadline w.now ≡ false = ground (arith, m.lasts) in
        rw (redis_read_alone o alone, o.redis.has_lem, m.at, long) refl

  fresh_mark :
      (alone : Alone o) (h : Text) (w : World Store)
      → Marked o h (w.now + default_revoked_ttl_seconds * second) (record_revoked o h w).1
  unfolding record_revoked ◌>>=◌
  fresh_mark alone h w =
      rw (redis_write_alone o alone, redis_write_alone o alone)
        (record {
          deadline = w.now + default_revoked_ttl_seconds * second;
          value = codes "1";
          at =
              rw
                (
                  o.redis.view-delete,
                  issued-apart h h,
                  o.redis.view-set,
                  text_eq_refl (revoked_key h),
                )
                refl;
          lasts = omega arith;
        })

  -- Where each call runs whole and undisturbed, one after another: for less than the 600 seconds of the
  -- mark after `record_revoked`, whatever the grant cache, the rate limiters and the holders of owner
  -- tokens in the idempotency store write to the same Redis meanwhile, in any order, `is_revoked`
  -- answers yes.
  pub record_revoked-Stays :
      (alone : Alone o) (h : Text) (calls : List CacheCall) (w : World Store)
      → waiting calls < default_revoked_ttl_seconds * second
      → (is_revoked o h (carry_out_all o calls (record_revoked o h w).1)).0 ≡ ok true
  record_revoked-Stays alone h calls w t =
      let until = w.now + default_revoked_ttl_seconds * second in
      let u = (record_revoked o h w).1 in
      let same = ((AtTime-revoked alone h until w.now h).at w (record { is = refl })).is in
      let (marked, now) =
        carry_out_all-Marked alone h until calls u (fresh_mark alone h w) (omega (arith, same)) in
      is_revoked-Marked alone h until (carry_out_all o calls u) marked (omega (arith, same, now))
