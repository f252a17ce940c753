-- ===== src/Scenario/Tests/Calls.antt =====
-- The theorems at concrete inputs: the breaker and the retries.
use credbroker.Common.{
  if◌then◌else◌, ◌==◌, ℕ, zero, suc, ◌+◌, ◌*◌, ◌^◌, ◌≤◌, ◌≡◌, refl, Bool, true, false, none, some,
  [], ◌∷◌, codes, arith,
}
use credbroker.Errors.{Exn, timeout, provider_call}
use credbroker.Exec.{ok, err, Exec, modify, pure}
use credbroker.Reliability.Breaker.{State, CircuitBreaker, make, allow, record_failure}
use credbroker.Reliability.Breaker.Laws.{
  Call, IsValid, run, run-IsValid, failures, admissions, trips_at_threshold, open_rejects,
  single_probe,
}
use credbroker.Reliability.Retry.{
  Circuit, admitted, default_retryable, note_failure, refused, call_with_retries,
}
use credbroker.Reliability.Retry.Attempts.{Counts, call_with_retries_attempts}
use credbroker.Reliability.Retry.Backoff.{
  Reaches, at_first, retried, retry_state, raises_assertion, refused_by_breaker, not_retried,
  never_unreachable, exhausts_with_backoff,
}

-- A breaker that opened at second 5 after two failures.
abbrev closed_breaker : CircuitBreaker
closed_breaker = record {
  failure_threshold = 2;
  reset_seconds = 30;
  state = State.closed;
  consecutive_failures = 0;
  opened_at = none;
  probe_in_flight = false;
}

abbrev open_breaker : CircuitBreaker
open_breaker = record {
  failure_threshold = 2;
  reset_seconds = 30;
  state = State.open_;
  consecutive_failures = 2;
  opened_at = some 5;
  probe_in_flight = false;
}

made : make 2 30 ≡ ok closed_breaker
unfolding make
made = refl

run-IsValid_example :
    IsValid (run ((Call.failure, 1) ∷ (Call.failure, 5) ∷ (Call.allowing, 40) ∷ []) closed_breaker)
run-IsValid_example =
    run-IsValid 2 30 ((Call.failure, 1) ∷ (Call.failure, 5) ∷ (Call.allowing, 40) ∷ []) made

trips_at_threshold_example :
    ((failures (1 ∷ []) closed_breaker).state ≡ State.closed)
    × ((record_failure 5 (failures (1 ∷ []) closed_breaker)).state ≡ State.open_)
    × ((record_failure 5 (failures (1 ∷ []) closed_breaker)).opened_at ≡ some 5)
trips_at_threshold_example = trips_at_threshold (1 ∷ []) 5 closed_breaker refl refl

open_rejects_example : admissions (6 ∷ 34 ∷ []) open_breaker ≡ false ∷ false ∷ []
open_rejects_example =
    open_rejects (6 ∷ 34 ∷ []) open_breaker refl refl (omega arith, (omega arith, tt))

single_probe_example : admissions (35 ∷ 36 ∷ 99 ∷ []) open_breaker ≡ true ∷ false ∷ false ∷ []
single_probe_example = single_probe 35 (36 ∷ 99 ∷ []) open_breaker refl refl (omega arith)

-- A state that counts the calls and the time slept.
abbrev Tally : Type 0
Tally = ℕ × ℕ

abbrev failing : Exec Tally ℕ
failing (calls, slept) = (err (timeout (codes "slow")), (calls + 1, slept))

abbrev napping : ℕ → Exec Tally (Unit {0})
napping d (calls, slept) = (ok tt, (calls, slept + d))

abbrev always : Exn → Bool
always _ = true

abbrev never : Exn → Bool
never _ = false

abbrev calls_of : Tally → ℕ
calls_of (calls, slept) = calls

abbrev slept_of : Tally → ℕ
slept_of (calls, slept) = slept

failing-Counts : Counts calls_of failing none napping
failing-Counts = record {
  by_fn = λ s. omega arith;
  by_sleep = λ d s. refl;
  by_write = λ c e b s. absurd (ground arith);
}

call_with_retries_attempts_example :
    calls_of (call_with_retries failing 3 100 none always napping (0, 0)).1 ≤ 4
call_with_retries_attempts_example =
    call_with_retries_attempts failing 3 100 none always napping calls_of failing-Counts (0, 0)

-- A breaker that has opened by the second attempt, kept outside the tally.
abbrev opening_circuit : Circuit Tally
opening_circuit = record {
  read = λ s. if calls_of s == 0 then closed_breaker else open_breaker;
  write = λ b s. s;
  clock = λ s. 6;
}

abbrev before_second : Tally
before_second = retry_state failing 3 100 (some opening_circuit) always napping 0 (0, 0)

second_begins : Reaches failing 3 100 (some opening_circuit) always napping (0, 0) 1 before_second
unfolding admitted allow note_failure modify
second_begins = retried 0 (0, 0) (timeout (codes "slow")) at_first refl refl refl (omega arith) refl

not_admitted : (admitted (some opening_circuit) before_second).0 ≡ ok false
unfolding admitted allow note_failure modify
not_admitted = refl

refused_by_breaker_example :
    call_with_retries failing 3 100 (some opening_circuit) always napping (0, 0)
    ≡ (err refused, (admitted (some opening_circuit) before_second).1)
refused_by_breaker_example =
    refused_by_breaker failing 3 100 (some opening_circuit) always napping (0, 0) before_second 1
      second_begins not_admitted

-- A function that times out once, and is then answered with status 404.
abbrev missing : Exn
missing = provider_call (codes "not found") (some 404)

abbrev timing_out_once : Exec Tally ℕ
timing_out_once (zero, slept) = (err (timeout (codes "slow")), (1, slept))
timing_out_once (suc calls, slept) = (err missing, (calls + 2, slept))

-- Its second attempt, which begins after a delay.
second_attempt :
    Reaches timing_out_once 3 100 none default_retryable napping
      (0, 0)
      1
      (retry_state timing_out_once 3 100 none default_retryable napping 0 (0, 0))
unfolding admitted default_retryable note_failure
second_attempt =
    retried 0 (0, 0) (timeout (codes "slow")) at_first refl refl refl (omega arith) refl

no_breaker : (s : Tally) → (admitted none s).0 ≡ ok true
unfolding admitted
no_breaker s = refl

missing_second :
    (timing_out_once
      (admitted none
        (retry_state timing_out_once 3 100 none default_retryable napping 0 (0, 0))).1).0
    ≡ err missing
unfolding admitted note_failure pure
missing_second = refl

missing_final : default_retryable missing ≡ false
unfolding default_retryable
missing_final = refl

not_retried_example :
    call_with_retries timing_out_once 3 100 none default_retryable napping (0, 0)
    ≡ timing_out_once
        (admitted none
          (retry_state timing_out_once 3 100 none default_retryable napping 0 (0, 0))).1
not_retried_example =
    not_retried timing_out_once 3 100 none default_retryable napping (0, 0)
      (retry_state timing_out_once 3 100 none default_retryable napping 0 (0, 0)) 1 missing
      second_attempt (no_breaker _) missing_second missing_final

never_unreachable_example :
    raises_assertion (call_with_retries failing 3 100 none always napping (0, 0)).0 ≡ false
never_unreachable_example =
    never_unreachable failing 3 100 none always napping (λ s. refl) (λ d s. refl) (0, 0)

exhausts_with_backoff_example :
    ((call_with_retries failing 3 100 none always napping (0, 0)).0 ≡ err (timeout (codes "slow")))
    × (slept_of (call_with_retries failing 3 100 none always napping (0, 0)).1 + 100
        ≡ 0 + 100 * 2 ^ 3)
exhausts_with_backoff_example =
    exhausts_with_backoff failing 3 100 always napping slept_of (timeout (codes "slow"))
      (λ s. (refl, refl)) (λ d s. (refl, refl)) refl (0, 0)
