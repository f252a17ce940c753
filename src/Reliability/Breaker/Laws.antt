-- ===== src/Reliability/Breaker/Laws.antt =====
-- The breaker's invariant, its count of failures, and its single probe.
use credbroker.Common.{
  ℕ, ◌+◌, ◌≤◌, ◌<◌, ◌≡◌, ◌≢◌, refl, ap, Bool, true, false, none, some, List, [], ◌∷◌, map, arith,
  length,
}
use credbroker.Exec.{ok}
use credbroker.Reliability.Breaker.{
  State, CircuitBreaker, make, sync, allow, record_success, record_failure,
}

-- What the fields say of each other in each state.
abbrev pub AgreesWith : State → CircuitBreaker → Type 0
AgreesWith State.closed b =
    (b.consecutive_failures < b.failure_threshold)
    × (b.opened_at ≡ none)
    × (b.probe_in_flight ≡ false)
AgreesWith State.open_ b = (b.opened_at ≢ none) × (b.probe_in_flight ≡ false)
AgreesWith State.half_open b = b.opened_at ≢ none

abbrev pub IsValid : CircuitBreaker → Type 0
IsValid b = (1 ≤ b.failure_threshold) × AgreesWith b.state b

-- A call of one of the breaker's methods; the property `state` is the call `read`.
pub data Call : Type 0 where
  read allowing success failure : Call

pub step : Call → ℕ → CircuitBreaker → CircuitBreaker
step read now b = sync now b
step allowing now b = (allow now b).1
step success now b = record_success b
step failure now b = record_failure now b

pub run : List (Call × ℕ) → CircuitBreaker → CircuitBreaker
run [] b = b
run ((c, now) ∷ rest) b = run rest (step c now b)

step-IsValid : (c : Call) (now : ℕ) (b : CircuitBreaker) → IsValid b → IsValid (step c now b)
unfolding step sync allow record_success record_failure
step-IsValid read now b v = ground arith
step-IsValid allowing now b v = ground arith
step-IsValid success now b v = ground arith
step-IsValid failure now b v = ground arith

run-keeps : (calls : List (Call × ℕ)) (b : CircuitBreaker) → IsValid b → IsValid (run calls b)
unfolding run
run-keeps [] b v = v
run-keeps ((c, now) ∷ rest) b v = run-keeps rest (step c now b) (step-IsValid c now b v)

-- Whatever methods are called, and whatever the clock reads, a breaker that the constructor made
-- is closed with fewer failures than its threshold and no opening time, open with an opening time
-- and no probe, or half open with an opening time.
pub run-IsValid :
    (threshold reset : ℕ) (calls : List (Call × ℕ)) {b : CircuitBreaker}
    → make threshold reset ≡ ok b
    → IsValid (run calls b)
unfolding make
run-IsValid threshold reset calls {b} made = run-keeps calls b (ground arith)

abbrev pub failures : List ℕ → CircuitBreaker → CircuitBreaker
failures [] b = b
failures (t ∷ ts) b = failures ts (record_failure t b)

abbrev pub admissions : List ℕ → CircuitBreaker → List Bool
admissions [] b = []
admissions (t ∷ ts) b = (allow t b).0 ∷ admissions ts (allow t b).1

-- While the count stays below the threshold a closed breaker stays closed; the failure that
-- reaches the threshold opens it at its own time, whatever the times were.
pub trips_at_threshold :
    (ts : List ℕ) (t : ℕ) (b : CircuitBreaker)
    → b.state ≡ State.closed
    → b.consecutive_failures + length ts + 1 ≡ b.failure_threshold
    → ((failures ts b).state ≡ State.closed)
      × ((record_failure t (failures ts b)).state ≡ State.open_)
      × ((record_failure t (failures ts b)).opened_at ≡ some t)
unfolding record_failure
trips_at_threshold [] t b e n = ground arith
trips_at_threshold (u ∷ us) t b e n =
    trips_at_threshold us t (record_failure u b) (ground arith) (ground arith)

abbrev pub AllBelow : ℕ → List ℕ → Type 0
AllBelow n [] = Unit
AllBelow n (t ∷ ts) = (t < n) × AllBelow n ts

allow_early :
    (t opened : ℕ) (b : CircuitBreaker)
    → b.state ≡ State.open_
    → b.opened_at ≡ some opened
    → t < opened + b.reset_seconds
    → allow t b ≡ (false, b)
unfolding allow
allow_early t opened b e o h = ground arith

allow_busy :
    (t : ℕ) (b : CircuitBreaker)
    → b.state ≡ State.half_open
    → b.probe_in_flight ≡ true
    → allow t b ≡ (false, b)
unfolding allow
allow_busy t b e p = ground arith

abbrev probing : CircuitBreaker → CircuitBreaker
probing b = record b { state = State.half_open; probe_in_flight = true }

allow_probe :
    (t opened : ℕ) (b : CircuitBreaker)
    → b.state ≡ State.open_
    → b.opened_at ≡ some opened
    → opened + b.reset_seconds ≤ t
    → allow t b ≡ (true, probing b)
unfolding allow
allow_probe t opened b e o h = ground arith

-- Until the reset window has passed an open breaker admits no call and does not change.
pub open_rejects :
    (ts : List ℕ) (b : CircuitBreaker) {opened : ℕ}
    → b.state ≡ State.open_
    → b.opened_at ≡ some opened
    → AllBelow (opened + b.reset_seconds) ts
    → admissions ts b ≡ map (λ _. false) ts
open_rejects [] b e o h = refl
open_rejects (t ∷ ts) b {opened} e o h =
    rw (allow_early t opened b e o h.0) (ap (λ l. false ∷ l) (open_rejects ts b e o h.1))

busy_rejects :
    (ts : List ℕ) (b : CircuitBreaker)
    → b.state ≡ State.half_open
    → b.probe_in_flight ≡ true
    → admissions ts b ≡ map (λ _. false) ts
busy_rejects [] b e p = refl
busy_rejects (t ∷ ts) b e p = rw (allow_busy t b e p) (ap (λ l. false ∷ l) (busy_rejects ts b e p))

-- The first call after the reset window is admitted, and it alone: every later one is rejected as
-- long as the probe records nothing.
pub single_probe :
    (now : ℕ) (ts : List ℕ) (b : CircuitBreaker) {opened : ℕ}
    → b.state ≡ State.open_
    → b.opened_at ≡ some opened
    → opened + b.reset_seconds ≤ now
    → admissions (now ∷ ts) b ≡ true ∷ map (λ _. false) ts
single_probe now ts b {opened} e o h =
    rw (allow_probe now opened b e o h) (ap (λ l. true ∷ l) (busy_rejects ts (probing b) refl refl))
