-- ===== src/Reliability/Idempotency/Exclusive.antt =====
-- What a reservation is worth: while it lasts, nobody else can claim, overwrite or free the key.
use credbroker.Common.{ℕ, ◌+◌, ◌<◌, ◌≡◌, ◌≢◌, refl, Text, Option, none, some, List, [], ◌∷◌, arith}
use credbroker.Exec.Keeps.{Keeps}
use credbroker.Json.{Json, null}
use credbroker.Reliability.Idempotency.{
  pending_value, get, reserve, complete, release, store_result, decode, loaded,
}
use credbroker.Reliability.Idempotency.Holds.{
  Holds, get-Holds, reserve-Holds, complete-Holds, release-Holds, sleep-Holds,
}
use credbroker.World.{World, Outside, sleep}
use credbroker.World.Alone.{Alone, AtTime, at_time, sleep_alone}

-- A call of the store by some other task: with its own owner tokens, or time that passes.
pub data Call : Type 0 where
  get_call reserve_call : Text → Call
  complete_call : ℕ → Text → Json → Text → Call
  release_call : Text → Text → Call
  wait_call : ℕ → Call

-- The call carries no owner token whose marker is the value.
abbrev pub Foreign : Text → Call → Type 0
Foreign v (complete_call window key result other) = v ≢ pending_value other
Foreign v (release_call key other) = v ≢ pending_value other
Foreign v _ = Unit

abbrev pub time_of : Call → ℕ
time_of (wait_call d) = d
time_of _ = 0

abbrev pub AllForeign : Text → List Call → Type 0
AllForeign v [] = Unit
AllForeign v (c ∷ cs) = Foreign v c × AllForeign v cs

abbrev pub total_time : List Call → ℕ
total_time [] = 0
total_time (c ∷ cs) = time_of c + total_time cs

module _ (o : Outside) where
  open o.redis use {Store, view}

  -- One call; what it raises ends with it.
  unfoldable pub perform : Call → World Store → World Store
  perform (get_call key) w = (get o key w).1
  perform (reserve_call key) w = (reserve o key w).1
  perform (complete_call window key result owner) w =
      (complete o window key result (some owner) w).1
  perform (release_call key owner) w = (release o key (some owner) w).1
  perform (wait_call d) w = (sleep o d w).1

  unfoldable pub perform_all : List Call → World Store → World Store
  perform_all [] w = w
  perform_all (c ∷ cs) w = perform_all cs (perform c w)

  module _ (alone : Alone o) (key v : Text) (deadline : ℕ) where
    perform-Holds :
        (c : Call) (w : World Store)
        → Holds o key v deadline w
        → w.now < deadline
        → Foreign v c
        → Holds o key v deadline (perform c w)
    unfolding perform
    perform-Holds (get_call k) w h t f = get-Holds o alone key v deadline k w h
    perform-Holds (reserve_call k) w h t f = reserve-Holds o alone key v deadline k w h t
    perform-Holds (complete_call window k result other) w h t f =
        complete-Holds o alone key v deadline window k result other w h t f
    perform-Holds (release_call k other) w h t f =
        release-Holds o alone key v deadline k other w h t f
    perform-Holds (wait_call d) w h t f = sleep-Holds o alone key v deadline d w h

    -- Only waiting takes time.
    loaded-AtTime : (t : ℕ) (j : Option Json) → Keeps (AtTime t) (loaded o j)
    unfolding loaded
    loaded-AtTime t none = search at_time
    loaded-AtTime t (some null) = search at_time
    loaded-AtTime t (some value) = search at_time

    decode-AtTime : (t : ℕ) (value : Option Text) → Keeps (AtTime t) (decode o value)
    unfolding decode
    decode-AtTime t none = search at_time
    decode-AtTime t (some value) = search (at_time, loaded-AtTime)

    get-AtTime : (t : ℕ) (k : Text) → Keeps (AtTime t) (get o k)
    unfolding get
    get-AtTime t k = search (at_time, decode-AtTime)

    reserve-AtTime : (t : ℕ) (k : Text) → Keeps (AtTime t) (reserve o k)
    unfolding reserve
    reserve-AtTime t k = search at_time depth 8

    complete-AtTime :
        (t window : ℕ) (k : Text) (result : Json) (other : Text)
        → Keeps (AtTime t) (complete o window k result (some other))
    unfolding complete store_result
    complete-AtTime t window k result other = search at_time depth 8

    release-AtTime : (t : ℕ) (k other : Text) → Keeps (AtTime t) (release o k (some other))
    unfolding release
    release-AtTime t k other = search at_time depth 8

    now_sleep : (d : ℕ) (w : World Store) → (sleep o d w).1.now ≡ w.now + d
    now_sleep d w = rw (sleep_alone o alone) refl

    pub now-perform : (c : Call) (w : World Store) → (perform c w).now ≡ time_of c + w.now
    unfolding perform
    now-perform (get_call k) w =
        omega (arith, ((get-AtTime w.now k).at w (record { is = refl })).is)
    now-perform (reserve_call k) w =
        omega (arith, ((reserve-AtTime w.now k).at w (record { is = refl })).is)
    now-perform (complete_call window k result other) w =
        omega
          (arith, ((complete-AtTime w.now window k result other).at w (record { is = refl })).is)
    now-perform (release_call k other) w =
        omega (arith, ((release-AtTime w.now k other).at w (record { is = refl })).is)
    now-perform (wait_call d) w = rw (now_sleep d w) (omega arith)

    pub perform_all-Holds :
        (cs : List Call) (w : World Store)
        → Holds o key v deadline w
        → total_time cs + w.now < deadline
        → AllForeign v cs
        → Holds o key v deadline (perform_all cs w)
          × ((perform_all cs w).now ≡ total_time cs + w.now)
    unfolding perform_all
    perform_all-Holds [] w h t f = (h, omega arith)
    perform_all-Holds (c ∷ cs) w h t f =
        let now = now-perform c w in
        let here = perform-Holds c w h (omega arith) f.0 in
        let (there, later) = perform_all-Holds cs (perform c w) here (omega arith) f.1 in
        (there, omega arith)
