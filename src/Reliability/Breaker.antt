-- ===== src/Reliability/Breaker.antt =====
-- `CircuitBreaker` of credbroker/reliability/retry.py. The clock and the reset window, floats of
-- seconds in the source, are counted in microseconds. A method takes the clock's reading.
pub mod Laws
use credbroker.Common.{
  ℕ, ◌+◌, Text, Bool, true, false, Option, none, some, ltb, leb, codes, if◌then◌else◌,
}
use credbroker.Errors.{Exn, value_error}
use credbroker.Exec.{Result, ok, err}

pub data State : Type 0 where
  closed open_ half_open : State

pub record CircuitBreaker : Type 0 where
  pub failure_threshold : ℕ
  pub reset_seconds : ℕ
  pub state : State
  pub consecutive_failures : ℕ
  pub opened_at : Option ℕ
  pub probe_in_flight : Bool

-- `__init__`; a negative reset window cannot be written here.
unfoldable pub make : ℕ → ℕ → Result CircuitBreaker
make threshold reset =
    if ltb threshold 1
    then err (value_error (codes "failure_threshold must be >= 1"))
    else ok (record {
      failure_threshold = threshold;
      reset_seconds = reset;
      state = State.closed;
      consecutive_failures = 0;
      opened_at = none;
      probe_in_flight = false;
    })

-- `self._clock() - self._opened_at >= self._reset_seconds`
elapsed : CircuitBreaker → ℕ → Bool
elapsed b now = elim b.opened_at [ none ↦ false | some t ↦ leb (t + b.reset_seconds) now ]

sync_from : State → ℕ → CircuitBreaker → CircuitBreaker
unfolding elapsed
sync_from State.open_ now b =
    if elapsed b now then record b { state = State.half_open; probe_in_flight = false } else b
sync_from _ now b = b

-- `_sync`
unfoldable pub sync : ℕ → CircuitBreaker → CircuitBreaker
unfolding sync_from
sync now b = sync_from b.state now b

admit : State → CircuitBreaker → Bool × CircuitBreaker
admit State.closed b = (true, b)
admit State.open_ b = (false, b)
admit State.half_open b =
    if b.probe_in_flight then (false, b) else (true, record b { probe_in_flight = true })

-- `allow`
unfoldable pub allow : ℕ → CircuitBreaker → Bool × CircuitBreaker
unfolding sync admit
allow now b = let c = sync now b in admit c.state c

-- `record_success`
unfoldable pub record_success : CircuitBreaker → CircuitBreaker
record_success b = record b {
  state = State.closed;
  consecutive_failures = 0;
  opened_at = none;
  probe_in_flight = false;
}

-- `_trip`
trip : ℕ → CircuitBreaker → CircuitBreaker
trip now b = record b { state = State.open_; opened_at = some now; probe_in_flight = false }

fail_from : State → ℕ → CircuitBreaker → CircuitBreaker
unfolding trip
fail_from State.closed now b =
    let counted = record b { consecutive_failures = b.consecutive_failures + 1 } in
    if leb b.failure_threshold counted.consecutive_failures then trip now counted else counted
fail_from _ now b = trip now b

-- `record_failure`
unfoldable pub record_failure : ℕ → CircuitBreaker → CircuitBreaker
unfolding sync fail_from
record_failure now b = let c = sync now b in fail_from c.state now c
