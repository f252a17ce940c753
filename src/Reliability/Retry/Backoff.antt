-- ===== src/Reliability/Retry/Backoff.antt =====
-- How `call_with_retries` ends: what is not retried, the delays of the backoff, and that the
-- statement after the loop is never reached.
use credbroker.Common.{
  ℕ, zero, suc, ◌+◌, ◌*◌, ◌^◌, ◌≡◌, ◌∙◌, ◌<◌, refl, ◌⊎◌, inl, inr, Bool, true, false, Option, none,
  some, ap, arith, leb,
}
use native.Mathlib.Numerals.{add-one}
use native.Mathlib.Nat.{pow-suc}
use credbroker.Errors.{Exn, assertion}
use credbroker.Exec.{Result, ok, err, Exec, pure, modify, ◌>>=◌}
use credbroker.Reliability.Retry.{
  Circuit, admitted, note_failure, note_success, refused, settle, rounds, call_with_retries,
}

abbrev pub raises_assertion {ℓ} : {A : Type ℓ} → Result A → Bool
raises_assertion (err (assertion _)) = true
raises_assertion _ = false

note_failure-ok :
    {S : Type 0} (circuit : Option (Circuit S)) (s : S) → (note_failure circuit s).0 ≡ ok tt
unfolding note_failure pure modify
note_failure-ok none s = refl
note_failure-ok (some c) s = refl

module _ {S A : Type 0} (fn : Exec S A) (max_retries base_delay : ℕ) (circuit : Option (Circuit S))
    (retryable : Exn → Bool) (sleep : ℕ → Exec S (Unit {0})) where
  call_first :
      (s : S)
      → call_with_retries fn max_retries base_delay circuit retryable sleep s
        ≡ rounds fn max_retries base_delay circuit retryable sleep (suc max_retries) 0 s
  unfolding call_with_retries
  call_first s = rw (add-one max_retries)

  -- The state in which a retry begins, after an attempt that failed in a retryable way, was recorded
  -- on the breaker and slept off.
  abbrev pub retry_state : ℕ → S → S
  retry_state n s =
      (sleep (base_delay * 2 ^ n) (note_failure circuit (fn (admitted circuit s).1).1).1).1

  -- `Reaches s n t`: the n-th attempt, counted from zero, of a call from s begins in t: each attempt before
  -- it was admitted, failed with a retryable exception, and was not the last one.
  pub data Reaches (s : S) : ℕ → S → Type 0 where
    at_first : Reaches s 0 s
    retried :
        (n : ℕ) (t : S) (e : Exn)
        → Reaches s n t
        → (admitted circuit t).0 ≡ ok true
        → (fn (admitted circuit t).1).0 ≡ err e
        → retryable e ≡ true
        → n < max_retries
        → (sleep (base_delay * 2 ^ n) (note_failure circuit (fn (admitted circuit t).1).1).1).0
          ≡ ok tt
        → Reaches s (suc n) (retry_state n t)

  -- One more round, where it fails in a retryable way and is not the last.
  round_retries :
      (left n : ℕ) (t : S) (e : Exn)
      → (admitted circuit t).0 ≡ ok true
      → (fn (admitted circuit t).1).0 ≡ err e
      → retryable e ≡ true
      → n < max_retries
      → (sleep (base_delay * 2 ^ n) (note_failure circuit (fn (admitted circuit t).1).1).1).0
        ≡ ok tt
      → rounds fn max_retries base_delay circuit retryable sleep (suc left) n t
        ≡ rounds fn max_retries base_delay circuit retryable sleep left (suc n) (retry_state n t)
  unfolding rounds settle ◌>>=◌
  round_retries left n t e go fails again below slept =
      let more : leb max_retries n ≡ false = ground arith in
      let noted = note_failure-ok circuit (fn (admitted circuit t).1).1 in
      rw (go, fails, again, noted, more, slept)
        (ap (λ m. rounds fn max_retries base_delay circuit retryable sleep left m (retry_state n t))
          (add-one n))

  one_further :
      (s : S) (left n : ℕ) (t : S) (e : Exn)
      → n + left ≡ max_retries
      → call_with_retries fn max_retries base_delay circuit retryable sleep s
        ≡ rounds fn max_retries base_delay circuit retryable sleep (suc left) n t
      → (admitted circuit t).0 ≡ ok true
      → (fn (admitted circuit t).1).0 ≡ err e
      → retryable e ≡ true
      → n < max_retries
      → (sleep (base_delay * 2 ^ n) (note_failure circuit (fn (admitted circuit t).1).1).1).0
        ≡ ok tt
      → (l : ℕ) × (suc n + l ≡ max_retries)
        × (call_with_retries fn max_retries base_delay circuit retryable sleep s
            ≡ rounds fn max_retries base_delay circuit retryable sleep
                (suc l)
                (suc n)
                (retry_state n t))
  one_further s zero n t e m run go fails again below slept = absurd (omega arith)
  one_further s (suc left) n t e m run go fails again below slept =
      (left, omega arith, run ∙ round_retries (suc left) n t e go fails again below slept)

  Reaches-rounds :
      (s : S) {n : ℕ} {t : S}
      → Reaches s n t
      → (left : ℕ) × (n + left ≡ max_retries)
        × (call_with_retries fn max_retries base_delay circuit retryable sleep s
            ≡ rounds fn max_retries base_delay circuit retryable sleep (suc left) n t)
  Reaches-rounds s at_first = (max_retries, omega arith, call_first s)
  Reaches-rounds s (retried n u e before go fails again below slept) =
      let (left, m, run) = Reaches-rounds s before in
      one_further s left n u e m run go fails again below slept

  -- At whichever attempt it is: a breaker that does not admit it ends the call with
  -- `ProviderUnavailableError`, without a further call of `fn`, in the state in which it was asked.
  pub refused_by_breaker :
      (s t : S) (n : ℕ)
      → Reaches s n t
      → (admitted circuit t).0 ≡ ok false
      → call_with_retries fn max_retries base_delay circuit retryable sleep s
        ≡ (err refused, (admitted circuit t).1)
  unfolding rounds ◌>>=◌
  refused_by_breaker s t n r h = let (left, m, run) = Reaches-rounds s r in run ∙ rw h refl

  -- At whichever attempt it comes: an exception that is not retryable ends the call, is raised again,
  -- and is not recorded on the breaker; the state is the one that this call of `fn` left.
  pub not_retried :
      (s t : S) (n : ℕ) (e : Exn)
      → Reaches s n t
      → (admitted circuit t).0 ≡ ok true
      → (fn (admitted circuit t).1).0 ≡ err e
      → retryable e ≡ false
      → call_with_retries fn max_retries base_delay circuit retryable sleep s
        ≡ fn (admitted circuit t).1
  unfolding rounds settle ◌>>=◌
  not_retried s t n e r h f final = let (left, m, run) = Reaches-rounds s r in run ∙ ground arith

  module _ (fn_safe : (s : S) → raises_assertion (fn s).0 ≡ false)
      (sleep_safe : (d : ℕ) (s : S) → raises_assertion (sleep d s).0 ≡ false) where
    settle_safe :
        (again : Exec S A) (attempt : ℕ) (r : Result A) (s : S)
        → raises_assertion r ≡ false
        → (leb max_retries attempt ≡ true) ⊎ ((u : S) → raises_assertion (again u).0 ≡ false)
        → raises_assertion
            (settle fn max_retries base_delay circuit retryable sleep again attempt r s).0
          ≡ false
    unfolding settle note_failure note_success ◌>>=◌
    settle_safe again attempt (ok a) s safe last = ground arith
    settle_safe again attempt (err e) s safe (inl last) = ground arith
    settle_safe again attempt (err e) s safe (inr more) =
        let t = (note_failure circuit s).1 in
        let d = base_delay * 2 ^ attempt in ground (arith, more (sleep d t).1, sleep_safe d t)

    rounds_safe :
        (left attempt : ℕ) (s : S)
        → attempt + left ≡ max_retries
        → raises_assertion
            (rounds fn max_retries base_delay circuit retryable sleep (suc left) attempt s).0
          ≡ false
    unfolding rounds admitted ◌>>=◌
    rounds_safe zero attempt s e =
        let t = (admitted circuit s).1 in
        ground (
          arith,
          fn_safe t,
          settle_safe (rounds fn max_retries base_delay circuit retryable sleep 0 (attempt + 1))
              attempt (fn t).0 (fn t).1 (fn_safe t) (inl (ground arith)),
        )
    rounds_safe (suc left) attempt s e =
        let t = (admitted circuit s).1 in
        ground (
          arith,
          fn_safe t,
          settle_safe
              (rounds fn max_retries base_delay circuit retryable sleep (suc left) (attempt + 1))
              attempt (fn t).0 (fn t).1 (fn_safe t)
              (inr (λ u. rounds_safe left (attempt + 1) u (omega arith))),
        )

    -- The `AssertionError` after the loop is never raised.
    pub never_unreachable :
        (s : S)
        → raises_assertion (call_with_retries fn max_retries base_delay circuit retryable sleep s).0
          ≡ false
    never_unreachable s = rw call_first (rounds_safe max_retries 0 s (omega arith))

doubled : (b n : ℕ) → b * 2 ^ (n + 1) ≡ b * 2 ^ n + b * 2 ^ n
doubled b n = rw add-one (rw pow-suc (omega arith))

module _ {S A : Type 0} (fn : Exec S A) (max_retries base_delay : ℕ) (retryable : Exn → Bool)
    (sleep : ℕ → Exec S (Unit {0})) (slept : S → ℕ) (e : Exn)
    (fails : (s : S) → ((fn s).0 ≡ err e) × (slept (fn s).1 ≡ slept s))
    (sleeps : (d : ℕ) (s : S) → ((sleep d s).0 ≡ ok tt) × (slept (sleep d s).1 ≡ slept s + d))
    (retries : retryable e ≡ true) where
  rounds_delay :
      (left attempt : ℕ) (s : S)
      → attempt + left ≡ max_retries
      → ((rounds fn max_retries base_delay none retryable sleep (suc left) attempt s).0 ≡ err e)
        × (slept (rounds fn max_retries base_delay none retryable sleep (suc left) attempt s).1
              + base_delay * 2 ^ attempt
            ≡ slept s + base_delay * 2 ^ max_retries)
  unfolding rounds settle admitted note_failure ◌>>=◌
  rounds_delay zero attempt s h =
      let last : max_retries ≡ attempt = omega arith in
      rw (last, (fails s).0, retries) (ground (arith, fails s))
  rounds_delay (suc left) attempt s h =
      let t = (fn s).1 in
      let d = base_delay * 2 ^ attempt in
      ground (
        arith,
        fails s,
        sleeps d t,
        doubled base_delay attempt,
        rounds_delay left (attempt + 1) (sleep d t).1 (omega arith),
      )

  -- Without a breaker, a function that keeps failing in a retryable way, and takes no time itself, is
  -- given up with its own exception after delays of `base_delay * (2 ** max_retries - 1)` together.
  pub exhausts_with_backoff :
      (s : S)
      → ((call_with_retries fn max_retries base_delay none retryable sleep s).0 ≡ err e)
        × (slept (call_with_retries fn max_retries base_delay none retryable sleep s).1 + base_delay
            ≡ slept s + base_delay * 2 ^ max_retries)
  exhausts_with_backoff s =
      let both = rounds_delay max_retries 0 s (omega arith) in
      rw (call_first fn max_retries base_delay none retryable sleep s)
        (both.0, omega (arith, both.1))
