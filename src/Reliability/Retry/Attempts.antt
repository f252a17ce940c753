-- ===== src/Reliability/Retry/Attempts.antt =====
-- How often `call_with_retries` calls its function, and when it does not retry.
use credbroker.Common.{
  inl, inr, ◌*◌, ◌^◌, ℕ, zero, suc, ◌+◌, ◌≤◌, ◌≡◌, Bool, Option, some, arith, Option-cases,
}
use credbroker.Errors.{Exn}
use credbroker.Exec.{Result, ok, err, Exec, ◌>>=◌}
use credbroker.Reliability.Breaker.{CircuitBreaker, allow, record_success, record_failure}
use credbroker.Reliability.Retry.{
  Circuit, admitted, note_failure, note_success, settle, rounds, call_with_retries,
}

-- A count of the calls: `fn` raises it by one at most, sleeping and the breaker's writes not at all.
pub record Counts {S A : Type 0} (count : S → ℕ) (fn : Exec S A) (circuit : Option (Circuit S))
    (sleep : ℕ → Exec S (Unit {0})) : Type 0 where
  pub by_fn : (s : S) → count (fn s).1 ≤ count s + 1
  pub by_sleep : (d : ℕ) (s : S) → count (sleep d s).1 ≡ count s
  pub by_write :
      (c : Circuit S)
      → circuit ≡ some c
      → (b : CircuitBreaker) (s : S) → count (c.write b s) ≡ count s

module _ {S A : Type 0} (fn : Exec S A) (max_retries base_delay : ℕ) (circuit : Option (Circuit S))
    (retryable : Exn → Bool) (sleep : ℕ → Exec S (Unit {0})) (count : S → ℕ)
    (h : Counts count fn circuit sleep) where
  count-admitted : (s : S) → count (admitted circuit s).1 ≡ count s
  unfolding admitted
  count-admitted s = elim (Option-cases circuit) [
    | inl e ↦ rw e
    | inr (c, e) ↦ rw e (h.by_write c e (allow (c.clock s) (c.read s)).1 s)
  ]

  count-note_failure : (s : S) → count (note_failure circuit s).1 ≡ count s
  unfolding note_failure ◌>>=◌
  count-note_failure s = elim (Option-cases circuit) [
    | inl e ↦ rw e
    | inr (c, e) ↦ rw e (h.by_write c e (record_failure (c.clock s) (c.read s)) s)
  ]

  count-note_success : (s : S) → count (note_success circuit s).1 ≡ count s
  unfolding note_success ◌>>=◌
  count-note_success s = elim (Option-cases circuit) [
    | inl e ↦ rw e
    | inr (c, e) ↦ rw e (h.by_write c e (record_success (c.read s)) s)
  ]

  settle-counted :
      (again : Exec S A) (left attempt : ℕ) (r : Result A) (s : S)
      → ((u : S) → count (again u).1 ≤ count u + left)
      → count (settle fn max_retries base_delay circuit retryable sleep again attempt r s).1
        ≤ count s + left
  unfolding settle ◌>>=◌
  settle-counted again left attempt (ok a) s bound = ground (arith, count-note_success s)
  settle-counted again left attempt (err e) s bound =
      let t = (note_failure circuit s).1 in
      let d = base_delay * 2 ^ attempt in
      ground (arith, count-note_failure s, bound (sleep d t).1, h.by_sleep d t)

  rounds-counted :
      (left attempt : ℕ) (s : S)
      → count (rounds fn max_retries base_delay circuit retryable sleep left attempt s).1
        ≤ count s + left
  unfolding rounds ◌>>=◌
  rounds-counted zero attempt s = omega arith
  rounds-counted (suc left) attempt s =
      let t = (admitted circuit s).1 in
      let again = rounds fn max_retries base_delay circuit retryable sleep left (attempt + 1) in
      ground (
        arith,
        count-admitted s,
        h.by_fn t,
        settle-counted again left attempt (fn t).0 (fn t).1 (rounds-counted left (attempt + 1)),
      )

  -- With the calls of `fn` counted, there are at most `1 + max_retries` of them, however they end and
  -- whatever the breaker says.
  pub call_with_retries_attempts :
      (s : S)
      → count (call_with_retries fn max_retries base_delay circuit retryable sleep s).1
        ≤ count s + (1 + max_retries)
  unfolding call_with_retries
  call_with_retries_attempts s = omega (arith, rounds-counted (max_retries + 1) 0 s)
