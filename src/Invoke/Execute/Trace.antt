-- ===== src/Invoke/Execute/Trace.antt =====
-- `_execute_call` keeps a discipline of the trace.
use credbroker.Common.{
  if◌then◌else◌, ℕ, zero, suc, Text, Bool, true, false, Option, none, some, List, ◌≡◌, refl,
}
use credbroker.Config.{Settings}
use credbroker.Errors.{
  broker, provider_call, timeout, transport, client_error, value_error, provider_unavailable,
}
use credbroker.Exec.{Result, ok, err, attempt, raise, modify, proceed, ◌>>=◌}
use credbroker.Exec.Keeps.{Keeps}
use credbroker.Invoke.Credential.{Refresh, token, ended, is_revoked_now}
use credbroker.Invoke.Credential.Trace.{
  Keeps-failed, Keeps-decrypt_now, Keeps-refresh_or_outcome, Keeps-is_revoked_now,
  clear-is_revoked_now,
}
use credbroker.Invoke.Discipline.{Discipline}
use credbroker.Invoke.Execute.{
  set_circuit, circuit_place, circuit_for, call_provider, revoked_outcome, retry_with, answered,
  provider_loop, checked_call, opened, with_stored, with_refreshed, on_account, execute_call,
}
use credbroker.Invoke.Outcome.{InvokeOutcome, InvokeService, Reason, denied, succeeded}
use credbroker.Invoke.Trace.{Keeps-call}
use credbroker.Json.{Json, Fields}
use credbroker.Models.{ConnectedAccount, Grant}
use credbroker.Reliability.Breaker.{CircuitBreaker}
use credbroker.Reliability.Retry.{default_retryable, call_with_retries}
use credbroker.Reliability.Retry.Frame.{Keeps-call_with_retries}
use credbroker.Tools.{ToolAdapter, call}
use credbroker.World.{World, Event, Outside, M, sleep}
use credbroker.World.Trace.{Frame, OnTrace, silent, Keeps-modify, Keeps-sleep}

module _ (o : Outside) {I : World o.redis.Store → Type 0} {Q : List Event → Type 0}
    (frame : Frame o I) where
  open o.redis use {Store}

  pub Keeps-denied :
      (error : Text) (reason : Reason) (start : ℕ)
      → Keeps (OnTrace I Q) (denied o error reason start)
  unfolding denied
  Keeps-denied error reason start = search silent

  pub Keeps-succeeded :
      (result : Json) (from_cache : Bool) (start : ℕ)
      → Keeps (OnTrace I Q) (succeeded o result from_cache start)
  unfolding succeeded
  Keeps-succeeded result from_cache start = search silent

module _ (o : Outside) {I : World o.redis.Store → Type 0} {Q R : List Event → Type 0}
    (frame : Frame o I) (d : Discipline Q R) where
  open o.redis use {Store}

  Keeps-call_with_circuit :
      (settings : Settings) (tool : ToolAdapter) (t : Text) (arguments : Fields) (provider : Text)
      (b : CircuitBreaker)
      → Keeps (OnTrace I R) (
          call_with_retries
            (call o tool t arguments)
            settings.outbound_max_retries
            settings.outbound_base_delay_seconds
            (some (circuit_place o provider b))
            default_retryable
            (sleep o))
  unfolding circuit_place
  Keeps-call_with_circuit settings tool t arguments provider b =
      Keeps-call_with_retries _ _ _ _ _ _ (Keeps-call o frame tool t arguments (d.on_contacted t))
        (Keeps-sleep o frame)
        (λ c w h. record { holds = h.holds; frame_lem = frame.on_circuits w _ h.frame_lem })

  Keeps-set_circuit :
      (provider : Text) (b : CircuitBreaker)
      → Keeps (OnTrace I R) (modify (set_circuit o provider b))
  unfolding set_circuit
  Keeps-set_circuit provider b = Keeps-modify o frame _ (λ w. refl) (λ w i. frame.on_circuits w _ i)

  Keeps-circuit_for :
      (settings : Settings) (provider : Text) (b : Option CircuitBreaker)
      → Keeps (OnTrace I R) (circuit_for o settings provider b)
  unfolding circuit_for
  Keeps-circuit_for settings provider none = search (silent, Keeps-set_circuit)
  Keeps-circuit_for settings provider (some b) = search silent

  Keeps-call_provider :
      (settings : Settings) (tool : ToolAdapter) (t : Text) (arguments : Fields)
      → Keeps (OnTrace I R) (call_provider o settings tool t arguments)
  unfolding call_provider
  Keeps-call_provider settings tool t arguments =
      search (silent, Keeps-circuit_for, Keeps-call_with_circuit)

  module _ (service : InvokeService) (grant : Grant) (token_hash : Text) (tool : ToolAdapter)
      (arguments : Fields) (start : ℕ) where
    -- From an armed state to a sound one.
    Continues : (M o InvokeOutcome) → Type 0
    Continues m = (w : World Store) → OnTrace I R w → OnTrace I Q (m w).1

    loosen : {w : World Store} → OnTrace I R w → OnTrace I Q w
    loosen {w} h = record { holds = d.weaken w.trace h.holds; frame_lem = h.frame_lem }

    from_Keeps : (m : M o InvokeOutcome) → Keeps (OnTrace I Q) m → Continues m
    unfolding Continues
    from_Keeps m k w h = k.at w (loosen h)

    checked_cases :
        (next : M o InvokeOutcome)
        → Continues next
        → (r : Result Bool) (w : World Store) → OnTrace I Q w
        → (r ≡ ok false → OnTrace I R w)
        → OnTrace I Q
            (proceed r
              (λ revoked.
                if revoked
                then revoked_outcome o service grant token_hash tool arguments start
                else next)
              w).1
    unfolding Continues revoked_outcome
    checked_cases next k (ok true) w h clear = (Keeps-denied o frame _ _ _).at w h
    checked_cases next k (ok false) w h clear = k w (clear refl)
    checked_cases next k (err e) w h clear = h

    -- A call that goes on after a revocation check that answered no.
    Keeps-checked :
        (next : M o InvokeOutcome)
        → Continues next
        → Keeps (OnTrace I Q) (
            is_revoked_now o service grant token_hash >>= λ revoked.
            if revoked
            then revoked_outcome o service grant token_hash tool arguments start
            else next)
    unfolding ◌>>=◌ Continues revoked_outcome
    Keeps-checked next k = record {
      at = λ w h.
          let m = is_revoked_now o service grant token_hash in
          let after =
            (Keeps-is_revoked_now o frame service grant token_hash d.on_rechecked).at w h in
          checked_cases next k (m w).0 (m w).1 after λ e.
            let (t, q, same) = clear-is_revoked_now o frame service grant token_hash w h e in
            record { holds = rw same (d.cleared t q); frame_lem = after.frame_lem };
    }

    Keeps-retry_with :
        (again : Text → M o InvokeOutcome) (r : Refresh)
        → ((t : Text) → Continues (again t))
        → Keeps (OnTrace I Q) (retry_with o service grant token_hash tool arguments start again r)
    unfolding retry_with
    Keeps-retry_with again (ended outcome) k = search silent
    Keeps-retry_with again (token access) k = Keeps-checked (again access) (k access)

    Keeps-answered :
        (a : ConnectedAccount) (again : Text → M o InvokeOutcome) (refreshed : Bool)
        (r : Result Json)
        → ((t : Text) → Continues (again t))
        → Keeps
            (OnTrace I Q)
            (answered o service grant token_hash tool arguments start a again refreshed r)
    unfolding answered
    Keeps-answered a again refreshed (ok result) k = search (silent, Keeps-succeeded)
    Keeps-answered a again refreshed (err (provider_call m status)) k =
        search
          (
            silent, Keeps-failed, Keeps-retry_with, Keeps-refresh_or_outcome, d.on_decrypted,
            d.on_refreshed,
          )
          depth 8
    Keeps-answered a again refreshed (err (broker provider_unavailable m)) k =
        search (silent, Keeps-failed)
    Keeps-answered a again refreshed (err (timeout m)) k = search (silent, Keeps-failed)
    Keeps-answered a again refreshed (err (transport m)) k = search (silent, Keeps-failed)
    Keeps-answered a again refreshed (err (value_error m)) k = search (silent, Keeps-failed)
    Keeps-answered a again refreshed (err e) k = search silent

    Continues-provider_loop :
        (fuel : ℕ) (a : ConnectedAccount) (refreshed : Bool) (t : Text)
        → Continues
            (provider_loop o service grant token_hash tool arguments start fuel a refreshed t)
    unfolding provider_loop Continues attempt raise
    Continues-provider_loop zero a refreshed t w h = loosen h
    Continues-provider_loop (suc fuel) a refreshed t w h =
        let m = call_provider o service.settings tool t arguments in
        (Keeps-answered a
            (provider_loop o service grant token_hash tool arguments start fuel a true) refreshed
            (m w).0 (Continues-provider_loop fuel a true)).at
          (m w).1 (loosen ((Keeps-call_provider service.settings tool t arguments).at w h))

    Keeps-checked_call :
        (a : ConnectedAccount) (refreshed : Bool) (t : Text)
        → Keeps
            (OnTrace I Q)
            (checked_call o service grant token_hash tool arguments start a refreshed t)
    unfolding checked_call
    Keeps-checked_call a refreshed t = Keeps-checked _ (Continues-provider_loop 2 a refreshed t)

    Keeps-opened :
        (a : ConnectedAccount) (r : Result Text)
        → Keeps (OnTrace I Q) (opened o service grant token_hash tool arguments start a r)
    unfolding opened
    Keeps-opened a (ok access) = Keeps-checked_call a false access
    Keeps-opened a (err (client_error m)) = search (silent, Keeps-failed)
    Keeps-opened a (err (value_error m)) = search (silent, Keeps-failed)
    Keeps-opened a (err e) = search silent

    Keeps-with_stored :
        (a : ConnectedAccount)
        → Keeps (OnTrace I Q) (with_stored o service grant token_hash tool arguments start a)
    unfolding with_stored
    Keeps-with_stored a = search (silent, Keeps-opened, Keeps-decrypt_now, d.on_decrypted)

    Keeps-with_refreshed :
        (a : ConnectedAccount) (r : Refresh)
        → Keeps (OnTrace I Q) (with_refreshed o service grant token_hash tool arguments start a r)
    unfolding with_refreshed
    Keeps-with_refreshed a (ended outcome) = search silent
    Keeps-with_refreshed a (token access) = Keeps-checked_call a true access

    Keeps-on_account :
        (a : Option ConnectedAccount)
        → Keeps (OnTrace I Q) (on_account o service grant token_hash tool arguments start a)
    unfolding on_account
    Keeps-on_account none = search Keeps-failed
    Keeps-on_account (some a) =
        search
          (
            silent, Keeps-failed, Keeps-with_stored, Keeps-with_refreshed, Keeps-refresh_or_outcome,
            d.on_decrypted, d.on_refreshed,
          )
          depth 10

    pub Keeps-execute_call :
        Keeps (OnTrace I Q) (execute_call o service grant token_hash tool arguments start)
    unfolding execute_call
    Keeps-execute_call = search (silent, Keeps-on_account)
