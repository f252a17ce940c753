-- ===== src/Invoke/Execute.antt =====
-- `_circuit_for`, `_call_provider` and `_execute_call` of credbroker/invoke/service.py.
pub mod Trace
pub mod Fuel
use credbroker.Common.{
  ℕ, zero, suc, ◌+◌, ◌*◌, Text, Bool, true, false, not, ◌&&◌, Option, none, some, ◌++◌, codes, ◌==◌,
  leb, is_some, text_eq, if◌then◌else◌,
}
use credbroker.Config.{Settings}
use credbroker.Errors.{
  Exn, broker, provider_call, timeout, transport, client_error, value_error, assertion,
  provider_unavailable,
}
use credbroker.Exec.{Result, ok, err, pure, raise, lift, gets, modify, attempt, ◌>>=◌, ◌>>◌}
use credbroker.Invoke.Credential.{
  can_refresh, Refresh, token, ended, decrypt_now, refresh_or_outcome, is_revoked_now,
}
use credbroker.Invoke.Outcome.{InvokeOutcome, InvokeService, Reason, denied, failed, succeeded}
use credbroker.Json.{Json, Fields}
use credbroker.Models.{ConnectedAccount, Grant, find}
use credbroker.Redis.{second}
use credbroker.Reliability.Breaker.{CircuitBreaker, make}
use credbroker.Reliability.Retry.{Circuit, default_retryable, call_with_retries}
use credbroker.Tools.{ToolAdapter, call}
use credbroker.World.{Outside, World, M, query, sleep, utcnow}

abbrev pub refresh_expiry_margin : ℕ
refresh_expiry_margin = 60 * second

module _ (o : Outside) where
  open o.redis use {Store}

  set_circuit : Text → CircuitBreaker → World Store → World Store
  set_circuit provider b w = record w {
    shared = record w.shared {
      circuits = λ p. if text_eq p provider then some b else w.circuits p;
    };
  }

  -- A breaker object: it stays itself if the dictionary loses it.
  circuit_place : Text → CircuitBreaker → Circuit (World Store)
  unfolding set_circuit
  circuit_place provider b = record {
    read = λ w. elim (w.circuits provider) [ none ↦ b | some c ↦ c ];
    write = set_circuit provider;
    clock = λ w. w.monotonic;
  }

  -- The breaker that `_circuit_for` finds or creates
  unfoldable pub circuit_for : Settings → Text → Option CircuitBreaker → M o CircuitBreaker
  unfolding set_circuit
  circuit_for settings provider (some b) = pure b
  circuit_for settings provider none = do
    b ← lift (make settings.circuit_failure_threshold settings.circuit_reset_seconds)
    modify (set_circuit provider b)
    pure b

  -- `_call_provider`
  unfoldable pub call_provider : Settings → ToolAdapter → Text → Fields → M o Json
  unfolding circuit_for circuit_place
  call_provider settings tool access_token arguments = do
    there ← gets λ w. w.circuits tool.provider
    b ← circuit_for settings tool.provider there
    call_with_retries (call o tool access_token arguments) settings.outbound_max_retries
        settings.outbound_base_delay_seconds (some (circuit_place tool.provider b))
        default_retryable (sleep o)

  module _ (service : InvokeService) (grant : Grant) (token_hash : Text) (tool : ToolAdapter)
      (arguments : Fields) (start : ℕ) where
    revoked_outcome : M o InvokeOutcome
    revoked_outcome = denied o (codes "grant has been revoked") Reason.revoked start

    -- After a refresh that a 401 asked for: the revocation check, then `continue`.
    retry_with : (Text → M o InvokeOutcome) → Refresh → M o InvokeOutcome
    unfolding revoked_outcome
    retry_with again (ended outcome) = pure outcome
    retry_with again (token access) = do
      revoked ← is_revoked_now o service grant token_hash
      if revoked then revoked_outcome else again access

    -- What follows `_call_provider`: the `except` clauses, and the success.
    answered :
        ConnectedAccount → (Text → M o InvokeOutcome) → Bool → Result Json → M o InvokeOutcome
    unfolding retry_with
    answered account again refreshed (ok result) = succeeded o result false start
    answered account again refreshed (err (provider_call m status)) =
        if (elim status [ none ↦ false | some s ↦ s == 401 ])
          && not refreshed
          && can_refresh account
        then (do
          refresh ← refresh_or_outcome o service.settings account start
          retry_with again refresh)
        else failed o m start
    answered account again refreshed (err (broker provider_unavailable m)) = failed o m start
    answered account again refreshed (err (timeout m)) =
        failed o (tool.name ++ codes " timed out contacting the provider") start
    answered account again refreshed (err (transport m)) =
        failed o (tool.name ++ codes " could not reach the provider") start
    answered account again refreshed (err (value_error m)) =
        failed o (tool.name ++ codes " returned a malformed response") start
    answered account again refreshed (err e) = raise e

    -- The `while True` loop, on fuel: a round that goes on has refreshed, and does so once.
    pub provider_loop : ℕ → ConnectedAccount → Bool → Text → M o InvokeOutcome
    unfolding answered
    provider_loop zero account refreshed access = raise (assertion (codes "out of fuel"))
    provider_loop (suc fuel) account refreshed access =
        attempt (call_provider service.settings tool access arguments)
          (answered account (provider_loop fuel account true) refreshed)

    -- The revocation re-check, then the loop.
    checked_call : ConnectedAccount → Bool → Text → M o InvokeOutcome
    unfolding revoked_outcome provider_loop
    checked_call account refreshed access = do
      revoked ← is_revoked_now o service grant token_hash
      if revoked then revoked_outcome else provider_loop 2 account refreshed access

    -- The stored access token, where no refresh gave another; `ClientError` and `ValueError` end
    -- the call.
    opened : ConnectedAccount → Result Text → M o InvokeOutcome
    unfolding checked_call
    opened account (ok access) = checked_call account false access
    opened account (err (client_error m)) =
        failed o (codes "stored credential could not be decrypted") start
    opened account (err (value_error m)) =
        failed o (codes "stored credential could not be decrypted") start
    opened account (err e) = raise e

    with_stored : ConnectedAccount → M o InvokeOutcome
    unfolding opened
    with_stored account = attempt (decrypt_now o account.encrypted_access_token) (opened account)

    with_refreshed : ConnectedAccount → Refresh → M o InvokeOutcome
    unfolding checked_call
    with_refreshed account (ended outcome) = pure outcome
    with_refreshed account (token access) = checked_call account true access

    -- Whether the credential expires within the margin, and whether it has expired.
    expires_by : Option ℕ → ℕ → Bool
    expires_by none deadline = false
    expires_by (some t) deadline = leb t deadline

    on_account : Option ConnectedAccount → M o InvokeOutcome
    unfolding with_stored with_refreshed expires_by
    on_account none = failed o (codes "connected account no longer exists") start
    on_account (some account) = do
      now ← utcnow o
      if expires_by account.expires_at (now + refresh_expiry_margin)
          then (if can_refresh account
              then (do
                refresh ← refresh_or_outcome o service.settings account start
                with_refreshed account refresh)
              else (if expires_by account.expires_at now
                  then failed o
                      (codes "connected account credential has expired and cannot be refreshed")
                      start
                  else with_stored account))
          else with_stored account

    -- `_execute_call`
    unfoldable pub execute_call : M o InvokeOutcome
    unfolding on_account
    execute_call = do
      account ←
          query o
            λ db. find (λ (a : ConnectedAccount). a.id == grant.connected_account_id) db.accounts
      on_account account
