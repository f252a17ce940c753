-- ===== src/Reliability/Retry.antt =====
-- `default_retryable` and `call_with_retries` of credbroker/reliability/retry.py. The state is
-- any type; a breaker is reached through its place in the state, and `fn`, `sleep` and the clock
-- are arguments, as in the source. Delays are in microseconds.
pub mod Attempts
pub mod Backoff
pub mod Frame
use credbroker.Common.{
  ℕ, zero, suc, ◌+◌, ◌*◌, ◌^◌, Bool, true, false, Option, none, some, leb, codes, if◌then◌else◌,
}
use credbroker.Errors.{
  Exn, broker, provider_call, timeout, transport, assertion, provider_unavailable,
}
use credbroker.Exec.{Result, ok, err, Exec, pure, raise, modify, attempt, ◌>>=◌, ◌>>◌}
use credbroker.Reliability.Breaker.{CircuitBreaker, allow, record_success, record_failure}

-- `default_retryable`
unfoldable pub default_retryable : Exn → Bool
default_retryable (timeout _) = true
default_retryable (transport _) = true
default_retryable (provider_call _ none) = false
default_retryable (provider_call _ (some status)) = leb 500 status
default_retryable _ = false

-- The breaker object that a call was given: where it lives in the state, and the clock that it reads.
pub record Circuit (S : Type 0) : Type 0 where
  pub read : S → CircuitBreaker
  pub write : CircuitBreaker → S → S
  pub clock : S → ℕ

abbrev pub refused : Exn
refused =
    broker provider_unavailable (codes "provider temporarily unavailable (circuit breaker open)")

module _ {S : Type 0} where
  -- `circuit is None or circuit.allow()`
  unfoldable pub admitted : Option (Circuit S) → Exec S Bool
  admitted none s = (ok true, s)
  admitted (some c) s = let (answer, b) = allow (c.clock s) (c.read s) in (ok answer, c.write b s)

  unfoldable pub note_failure : Option (Circuit S) → Exec S (Unit {0})
  note_failure none = pure tt
  note_failure (some c) = modify λ s. c.write (record_failure (c.clock s) (c.read s)) s

  unfoldable pub note_success : Option (Circuit S) → Exec S (Unit {0})
  note_success none = pure tt
  note_success (some c) = modify λ s. c.write (record_success (c.read s)) s

module _ {S A : Type 0} (fn : Exec S A) (max_retries base_delay : ℕ) (circuit : Option (Circuit S))
    (retryable : Exn → Bool) (sleep : ℕ → Exec S (Unit {0})) where
  -- What follows one `await fn()`: the `except` and `else` blocks. `again` is the rest of the loop.
  settle : Exec S A → ℕ → Result A → Exec S A
  settle again round (ok result) = do note_success circuit; pure result
  settle again round (err e) =
      if retryable e
      then (do
        note_failure circuit
        if leb max_retries round then raise e else (do sleep (base_delay * 2 ^ round); again))
      else raise e

  -- The `for` loop, on the number of rounds left.
  rounds : ℕ → ℕ → Exec S A
  rounds zero round = raise (assertion (codes "unreachable"))
  rounds (suc left) round = do
    go ← admitted circuit
    if go then attempt fn (settle (rounds left (round + 1)) round) else raise refused

  -- `call_with_retries`; a negative `max_retries` or `base_delay` cannot be written here.
  unfoldable pub call_with_retries : Exec S A
  unfolding settle rounds admitted note_failure note_success
  call_with_retries = rounds (max_retries + 1) 0
