-- ===== src/Reliability/Retry/Frame.antt =====
-- What the function, the delays and the breaker's writes keep, `call_with_retries` keeps.
use credbroker.Common.{ℕ, zero, suc, ◌+◌, Option, none, some, Bool}
use credbroker.Errors.{Exn}
use credbroker.Exec.{Result, ok, err, Exec, modify}
use credbroker.Exec.Keeps.{Keeps, Keeps-bind, Keeps-if, Keeps-attempt, Keeps-raise, keeps_rules}
use credbroker.Reliability.Breaker.{CircuitBreaker, allow, record_failure, record_success}
use credbroker.Reliability.Retry.{
  Circuit, admitted, note_failure, note_success, refused, settle, rounds, call_with_retries,
}

-- A breaker whose writes keep a predicate of the state.
abbrev pub WritesKeep : {S : Type 0} → (S → Type 0) → Option (Circuit S) → Type 0
WritesKeep P none = Unit
WritesKeep {S} P (some c) = (b : CircuitBreaker) (s : S) → P s → P (c.write b s)

module _ {S : Type 0} {P : S → Type 0} where
  Keeps-admitted :
      (circuit : Option (Circuit S)) → WritesKeep P circuit → Keeps P (admitted circuit)
  unfolding admitted
  Keeps-admitted none writes = record { at = λ s h. h }
  Keeps-admitted (some c) writes = record {
    at = λ s h. writes (allow (c.clock s) (c.read s)).1 s h;
  }

  Keeps-note_failure :
      (circuit : Option (Circuit S)) → WritesKeep P circuit → Keeps P (note_failure circuit)
  unfolding note_failure modify
  Keeps-note_failure none writes = search keeps_rules
  Keeps-note_failure (some c) writes = record {
    at = λ s h. writes (record_failure (c.clock s) (c.read s)) s h;
  }

  Keeps-note_success :
      (circuit : Option (Circuit S)) → WritesKeep P circuit → Keeps P (note_success circuit)
  unfolding note_success modify
  Keeps-note_success none writes = search keeps_rules
  Keeps-note_success (some c) writes = record { at = λ s h. writes (record_success (c.read s)) s h }

module _ {S A : Type 0} {P : S → Type 0} (fn : Exec S A) (max_retries base_delay : ℕ)
    (circuit : Option (Circuit S)) (retryable : Exn → Bool) (sleep : ℕ → Exec S (Unit {0}))
    (by_fn : Keeps P fn) (by_sleep : (d : ℕ) → Keeps P (sleep d))
    (writes : WritesKeep P circuit) where
  Keeps-settle :
      (again : Exec S A) (attempt : ℕ) (r : Result A)
      → Keeps P again
      → Keeps P (settle fn max_retries base_delay circuit retryable sleep again attempt r)
  unfolding settle
  Keeps-settle again attempt (ok a) k = search (keeps_rules, Keeps-note_success)
  Keeps-settle again attempt (err e) k = search (keeps_rules, Keeps-note_failure, by_sleep) depth 8

  Keeps-rounds :
      (left attempt : ℕ)
      → Keeps P (rounds fn max_retries base_delay circuit retryable sleep left attempt)
  unfolding rounds
  Keeps-rounds zero attempt = search keeps_rules
  Keeps-rounds (suc left) attempt =
      let again = rounds fn max_retries base_delay circuit retryable sleep left (attempt + 1) in
      let later = Keeps-rounds left (attempt + 1) in
      Keeps-bind (admitted circuit) _ (Keeps-admitted circuit writes) λ go.
        Keeps-if go _ _ (Keeps-attempt fn _ by_fn λ r. Keeps-settle again attempt r later)
          (Keeps-raise refused)

  pub Keeps-call_with_retries :
      Keeps P (call_with_retries fn max_retries base_delay circuit retryable sleep)
  unfolding call_with_retries
  Keeps-call_with_retries = Keeps-rounds (max_retries + 1) 0
