-- ===== src/Invoke/Execute/Fuel.antt =====
-- Two rounds are enough for the `while True` loop of `_execute_call`.
use credbroker.Common.{
  ℕ, suc, ◌≡◌, refl, inl, inr, Text, Bool, true, false, not, ◌&&◌, none, some, ◌==◌, if◌then◌else◌,
  arith,
}
use credbroker.Errors.{broker, provider_call, timeout, transport, value_error, provider_unavailable}
use credbroker.Exec.{Result, ok, err, attempt, Result-cases, ◌>>=◌}
use credbroker.Invoke.Credential.{
  can_refresh, Refresh, token, ended, refresh_or_outcome, is_revoked_now,
}
use credbroker.Invoke.Execute.{call_provider, retry_with, answered, provider_loop}
use credbroker.Invoke.Outcome.{InvokeOutcome, InvokeService, failed}
use credbroker.Json.{Json, Fields}
use credbroker.Models.{ConnectedAccount, Grant}
use credbroker.Tools.{ToolAdapter}
use credbroker.World.{World, Outside, M}

-- The condition of the retry fails once the credential is refreshed.
no_second_refresh : (b c : Bool) → (b && not true && c) ≡ false
no_second_refresh b c = ground arith

module _ (o : Outside) (service : InvokeService) (grant : Grant) (token_hash : Text)
    (tool : ToolAdapter) (arguments : Fields) (start : ℕ) where
  open o.redis use {Store}

  -- Two continuations that do the same in every world.
  abbrev Same : (Text → M o InvokeOutcome) → (Text → M o InvokeOutcome) → Type 0
  Same f g = (access : Text) (w : World Store) → f access w ≡ g access w

  answered-refreshed :
      (account : ConnectedAccount) (f g : Text → M o InvokeOutcome) (r : Result Json)
      (w : World Store)
      → answered o service grant token_hash tool arguments start account f true r w
        ≡ answered o service grant token_hash tool arguments start account g true r w
  unfolding answered
  answered-refreshed account f g (ok result) w = refl
  answered-refreshed account f g (err (provider_call m status)) w = rw no_second_refresh refl
  answered-refreshed account f g (err (broker provider_unavailable m)) w = refl
  answered-refreshed account f g (err (timeout m)) w = refl
  answered-refreshed account f g (err (transport m)) w = refl
  answered-refreshed account f g (err (value_error m)) w = refl
  answered-refreshed account f g (err e) w = refl

  retry_with-Same :
      (f g : Text → M o InvokeOutcome) (r : Refresh) (w : World Store)
      → Same f g
      → retry_with o service grant token_hash tool arguments start f r w
        ≡ retry_with o service grant token_hash tool arguments start g r w
  unfolding retry_with ◌>>=◌
  retry_with-Same f g (ended outcome) w h = refl
  retry_with-Same f g (token access) w h =
      elim (Result-cases (is_revoked_now o service grant token_hash w).0) [
        | inl (true, e) ↦ rw e refl
        | inl (false, e) ↦ rw e (h access _)
        | inr (x, e) ↦ rw e refl
      ]

  retried-Same :
      (b : Bool) (account : ConnectedAccount) (f g : Text → M o InvokeOutcome)
      (other : M o InvokeOutcome) (w : World Store)
      → Same f g
      → (if b
            then (refresh_or_outcome o service.settings account start
                >>= retry_with o service grant token_hash tool arguments start f)
            else other)
          w
        ≡ (if b
              then (refresh_or_outcome o service.settings account start
                  >>= retry_with o service grant token_hash tool arguments start g)
              else other)
            w
  unfolding ◌>>=◌
  retried-Same false account f g other w h = refl
  retried-Same true account f g other w h =
      elim (Result-cases (refresh_or_outcome o service.settings account start w).0) [
        | inl (r, e) ↦ rw e (retry_with-Same f g r _ h)
        | inr (x, e) ↦ rw e refl
      ]

  answered-Same :
      (account : ConnectedAccount) (f g : Text → M o InvokeOutcome) (refreshed : Bool)
      (r : Result Json) (w : World Store)
      → Same f g
      → answered o service grant token_hash tool arguments start account f refreshed r w
        ≡ answered o service grant token_hash tool arguments start account g refreshed r w
  unfolding answered
  answered-Same account f g refreshed (ok result) w h = refl
  answered-Same account f g refreshed (err (provider_call m status)) w h =
      retried-Same
        ((elim status [ none ↦ false | some s ↦ s == 401 ]) && not refreshed && can_refresh account)
        account f g (failed o m start) w h
  answered-Same account f g refreshed (err (broker provider_unavailable m)) w h = refl
  answered-Same account f g refreshed (err (timeout m)) w h = refl
  answered-Same account f g refreshed (err (transport m)) w h = refl
  answered-Same account f g refreshed (err (value_error m)) w h = refl
  answered-Same account f g refreshed (err e) w h = refl

  -- The rounds that follow a refresh.
  abbrev loop : ℕ → ConnectedAccount → Text → M o InvokeOutcome
  loop n account access =
      provider_loop o service grant token_hash tool arguments start n account true access

  loop-refreshed :
      (n : ℕ) (account : ConnectedAccount) (access : Text) (w : World Store)
      → provider_loop o service grant token_hash tool arguments start (suc n) account true access w
        ≡ provider_loop o service grant token_hash tool arguments start 1 account true access w
  unfolding provider_loop attempt
  loop-refreshed n account access w =
      let call = call_provider o service.settings tool access arguments w in
      answered-refreshed account (loop n account) (loop 0 account) call.0 call.1

  -- With two rounds or any more, the loop of `_execute_call` does the same in every world: it never
  -- runs out of rounds, since a round that goes on has refreshed the credential, and the next one ends.
  pub provider_loop-Enough :
      (n : ℕ) (account : ConnectedAccount) (refreshed : Bool) (access : Text) (w : World Store)
      → provider_loop o service grant token_hash tool arguments start
          (suc (suc n))
          account
          refreshed
          access
          w
        ≡ provider_loop o service grant token_hash tool arguments start 2 account refreshed access w
  unfolding provider_loop attempt
  provider_loop-Enough n account refreshed access w =
      answered-Same account (loop (suc n) account) (loop 1 account) refreshed
        (call_provider o service.settings tool access arguments w).0
        (call_provider o service.settings tool access arguments w).1
        (λ access' u. loop-refreshed n account access' u)
