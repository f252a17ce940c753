-- ===== src/Invoke/Service.antt =====
-- `invoke` and `_invoke_resolved` of credbroker/invoke/service.py.
pub mod Trace
pub mod Guard
pub mod Rows
pub mod Audit
pub mod Succeeds
pub mod Checks
pub mod Returns
use credbroker.Common.{
  ℕ, Text, Bool, true, false, not, ◌||◌, Option, none, some, List, [], ◌∷◌, ◌++◌, codes, leb,
  is_some, text_eq, if◌then◌else◌,
}
use credbroker.Cache.GrantCache.{is_revoked}
use credbroker.Cache.RateLimiter.{check}
use credbroker.Errors.{
  Exn, broker, grant_expired, grant_token_invalid, idempotency_conflict, message,
}
use credbroker.Exec.{Result, ok, err, pure, raise, gets, modify, attempt, ◌>>=◌, ◌>>◌}
use credbroker.Grants.Tokens.{GrantClaims, hash_token, verify_grant_token}
use credbroker.Invoke.Audit.{record_call}
use credbroker.Invoke.Execute.{execute_call}
use credbroker.Invoke.Outcome.{InvokeOutcome, InvokeService, Reason, denied, failed, succeeded}
use credbroker.Json.{Json, Fields, obj, end}
use credbroker.Models.{Status, Grant, find}
use credbroker.Reliability.Idempotency.{get, reserve, complete, release}
use credbroker.Tools.{ToolAdapter, get_tool}
use credbroker.World.{Outside, M, emit, utcnow, query, rollback, counted}

module _ (o : Outside) (service : InvokeService) where
  module _ (grant : Grant) (token_hash tool_name : Text) (arguments : Fields) (start : ℕ) where
    run_call : ToolAdapter → M o InvokeOutcome
    run_call tool = execute_call o service grant token_hash tool arguments start

    abbrev pub window : ℕ
    window = service.settings.idempotency_window_seconds

    -- `outcome.result or {}`
    abbrev pub result_or_empty : Option Json → Json
    result_or_empty none = obj end
    result_or_empty (some j) = j

    -- The result is kept on success, and the key freed otherwise.
    settle : Text → Text → Status → Option Json → M o (Unit {0})
    settle key owner Status.success result =
        complete o window key (result_or_empty result) (some owner)
    settle key owner _ result = release o key (some owner)

    -- What follows `_execute_call` under a reservation, its `except` clause first.
    finish : Text → Text → Result InvokeOutcome → M o InvokeOutcome
    unfolding settle
    finish key owner (err e) = do release o key (some owner); raise e
    finish key owner (ok outcome) = do settle key owner outcome.status outcome.result; pure outcome

    conflict : M o InvokeOutcome
    conflict =
        denied o (codes "concurrent call with same idempotency key") Reason.idempotency_conflict
          start

    reserved : ToolAdapter → Text → Option Text → M o InvokeOutcome
    unfolding finish run_call conflict
    reserved tool key none = conflict
    reserved tool key (some owner) = attempt (run_call tool) (finish key owner)

    -- What `get` found: a conflict, a result to replay, or nothing.
    replayed : ToolAdapter → Text → Result (Option Json) → M o InvokeOutcome
    unfolding reserved
    replayed tool key (err (broker idempotency_conflict m)) = conflict
    replayed tool key (err e) = raise e
    replayed tool key (ok (some cached)) = succeeded o cached true start
    replayed tool key (ok none) = do owner ← reserve o key; reserved tool key owner

    -- The key that binds the caller's to the agent, the account and the tool.
    abbrev pub full_key : Text → Text
    full_key key =
        o.uuid_str grant.agent_id
        ++ (codes ":"
            ++ (o.uuid_str grant.connected_account_id
                ++ (codes ":" ++ (tool_name ++ (codes ":" ++ key)))))

    -- Step 6, where a key was given and there is a store.
    deduplicated : ToolAdapter → Bool → Option Text → M o InvokeOutcome
    unfolding replayed
    deduplicated tool true (some key) =
        attempt (get o (full_key key)) (replayed tool (full_key key))
    deduplicated tool _ _ = run_call tool

    -- Step 5, and on.
    with_tool : Option Text → Result ToolAdapter → M o InvokeOutcome
    unfolding deduplicated
    with_tool idempotency_key (err e) = denied o (message e) Reason.not_found start
    with_tool idempotency_key (ok tool) =
        if not (text_eq grant.scope tool.scope)
        then denied o
            (codes "grant scope "
              ++ (o.repr grant.scope ++ (codes " does not match tool scope " ++ o.repr tool.scope)))
            Reason.scope_mismatch start
        else deduplicated tool service.idempotency_store idempotency_key

    -- Step 4.
    rate_allowed : Bool → M o Bool
    rate_allowed false = pure true
    rate_allowed true =
        check o (codes "invoke:" ++ o.uuid_str grant.agent_id)
          service.settings.invokes_per_minute_per_agent

    -- `_invoke_resolved`
    unfoldable pub invoke_resolved : Option Text → Bool → M o InvokeOutcome
    unfolding with_tool rate_allowed
    invoke_resolved idempotency_key fast_revoked =
        if fast_revoked || is_some grant.revoked_at
        then denied o (codes "grant has been revoked") Reason.revoked start
        else (do
          now ← utcnow o
          if leb grant.expires_at now
              then denied o (codes "grant has expired") Reason.expired start
              else (do
                allowed ← rate_allowed service.rate_limiter
                if allowed
                    then with_tool idempotency_key (get_tool service.settings tool_name)
                    else (do
                      emit o (counted (codes "rate_limited") (codes "invoke_tool" ∷ []))
                      denied o (codes "invoke rate limit exceeded") Reason.rate_limited start)))

  -- The backstop: an exception becomes a generic failure, and the session is cleared.
  pub backstop : ℕ → Result InvokeOutcome → M o InvokeOutcome
  backstop start (ok outcome) = pure outcome
  backstop start (err e) = do
    rollback o
    failed o (codes "internal error during tool invocation") start

  pub fast_check : Bool → Text → M o Bool
  fast_check false token_hash = pure false
  fast_check true token_hash = is_revoked o token_hash

  -- With the grant row resolved: the steps, the backstop, and the audit row.
  pub audited_call : Grant → Text → Text → Fields → Option Text → Bool → ℕ → M o InvokeOutcome
  unfolding backstop
  audited_call grant token_hash tool_name arguments idempotency_key fast_revoked start = do
    outcome ←
        attempt
          (invoke_resolved grant token_hash tool_name arguments start idempotency_key fast_revoked)
          (backstop start)
    record_call o grant.id tool_name arguments outcome.status outcome.latency_ms
    pure outcome

  resolved : Text → Text → Fields → Option Text → Bool → ℕ → Option Grant → M o InvokeOutcome
  unfolding audited_call
  resolved token_hash tool_name arguments idempotency_key fast_revoked start none =
      denied o (codes "grant not found") Reason.not_found start
  resolved token_hash tool_name arguments idempotency_key fast_revoked start (some grant) =
      audited_call grant token_hash tool_name arguments idempotency_key fast_revoked start

  -- Step 3, in a new session.
  looked_up : Text → Text → Fields → Option Text → ℕ → M o InvokeOutcome
  unfolding resolved fast_check
  looked_up grant_token tool_name arguments idempotency_key start = do
    modify λ w. record w { pending = λ db. db }
    let token_hash = hash_token o grant_token
    fast_revoked ← fast_check service.grant_cache token_hash
    grant ← query o λ db. find (λ (g : Grant). text_eq g.grant_token_hash token_hash) db.grants
    resolved token_hash tool_name arguments idempotency_key fast_revoked start grant

  -- Step 2, on the verified claims, and on.
  verified : Text → Text → Fields → Option Text → ℕ → Result GrantClaims → M o InvokeOutcome
  unfolding looked_up
  verified grant_token tool_name arguments idempotency_key start (err (broker grant_expired m)) =
      denied o m Reason.expired start
  verified grant_token tool_name arguments idempotency_key start
        (err (broker grant_token_invalid m)) =
      denied o m Reason.invalid_token start
  verified grant_token tool_name arguments idempotency_key start (err e) = raise e
  verified grant_token tool_name arguments idempotency_key start (ok claims) =
      if not (text_eq tool_name claims.tool_name)
      then denied o (codes "grant token is not valid for this tool") Reason.tool_mismatch start
      else looked_up grant_token tool_name arguments idempotency_key start

  -- `invoke`
  unfoldable pub invoke : Text → Text → Fields → Option Text → M o InvokeOutcome
  unfolding verified
  invoke grant_token tool_name arguments idempotency_key = do
    start ← gets λ w. w.monotonic
    claims ← gets λ w. verify_grant_token o grant_token service.settings w.now
    verified grant_token tool_name arguments idempotency_key start claims
