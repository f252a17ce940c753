-- ===== src/Cache/GrantCache/Calls.antt =====
-- Calls of the stores that share Redis with the grant cache, and the mark of a revocation.
use credbroker.Common.{
  ℕ, ◌+◌, ◌≤◌, ◌≡◌, refl, ◌∙◌, Text, false, some, List, [], ◌∷◌, text_eq, text_eq-heads,
  text_eq-tails, arith,
}
use credbroker.Cache.GrantCache.{issued_key, revoked_key, record_issued, record_revoked}
use credbroker.Cache.RateLimiter.{check, counter_key}
use credbroker.Reliability.Idempotency.Exclusive.{Call, perform, time_of}
use credbroker.World.{World, Outside, sleep}

-- A call of the grant cache, of a rate limiter or of the idempotency store, or time that passes.
pub data CacheCall : Type 0 where
  issued_call : Text → ℕ → CacheCall
  revoked_call : Text → CacheCall
  check_call : Text → ℕ → CacheCall
  store_call : Call → CacheCall
  wait_call : ℕ → CacheCall

abbrev pub waiting : List CacheCall → ℕ
waiting [] = 0
waiting (wait_call d ∷ cs) = d + waiting cs
waiting (store_call c ∷ cs) = time_of c + waiting cs
waiting (_ ∷ cs) = waiting cs

pub waiting-grows : (c : CacheCall) (cs : List CacheCall) → waiting cs ≤ waiting (c ∷ cs)
waiting-grows (issued_call h ttl) cs = omega arith
waiting-grows (revoked_call h) cs = omega arith
waiting-grows (check_call key limit) cs = omega arith
waiting-grows (store_call c) cs = omega arith
waiting-grows (wait_call d) cs = omega arith

-- The keys of grants, revocations and counters are apart.
pub issued-apart : (h' h : Text) → text_eq (issued_key h') (revoked_key h) ≡ false
issued-apart h' h = text_eq-heads _ _ _ _ refl

pub counter-apart :
    (key : Text) (n : ℕ) (h : Text) → text_eq (counter_key key n) (revoked_key h) ≡ false
counter-apart key n h = text_eq-tails _ _ _ ∙ text_eq-heads _ _ _ _ refl

module _ (o : Outside) where
  open o.redis use {Store, view}

  unfoldable pub carry_out : CacheCall → World Store → World Store
  carry_out (issued_call h ttl) w = (record_issued o h ttl w).1
  carry_out (revoked_call h) w = (record_revoked o h w).1
  carry_out (check_call key limit) w = (check o key limit w).1
  carry_out (store_call c) w = perform o c w
  carry_out (wait_call d) w = (sleep o d w).1

  unfoldable pub carry_out_all : List CacheCall → World Store → World Store
  carry_out_all [] w = w
  carry_out_all (c ∷ cs) w = carry_out_all cs (carry_out c w)

  -- A mark for the grant that lasts until a time at least.
  pub record Marked (h : Text) (until : ℕ) (w : World Store) : Type 0 where
    pub deadline : ℕ
    pub value : Text
    pub at :
        view w.store (revoked_key h) ≡ some (record { value = value; deadline = some deadline })
    pub lasts : until ≤ deadline
