-- ===== src/Scenario/Runs.antt =====
-- An invocation of the concrete broker, run to its end.
use credbroker.Cache.GrantCache.{is_revoked}
use credbroker.Cache.RateLimiter.{check}
use credbroker.Common.{
  Text, false, true, Option, some, none, ◌≡◌, refl, codes, decimal, text_eq, decimal_value,
  starts_with,
}
use credbroker.Crypto.{decrypt, on_registry, to_thread}
use credbroker.Exec.{ok, ◌>>=◌, attempt, gets, lift, modify, pure, raise, raise_if}
use credbroker.Grants.Tokens.{verify_grant_token}
use credbroker.Invoke.Audit.{record_call}
use credbroker.Invoke.Credential.{is_revoked_now}
use credbroker.Invoke.Credential.{decrypt_now}
use credbroker.Invoke.Execute.{call_provider, circuit_for, execute_call}
use credbroker.Invoke.Outcome.{denied, failed, succeeded}
use credbroker.Invoke.Service.{invoke_resolved, invoke}
use credbroker.Json.{obj, end, lookup}
use credbroker.Logging.{register}
use credbroker.Models.{find}
use credbroker.Reliability.Breaker.{allow, make, record_success, sync}
use credbroker.Reliability.Idempotency.{get, complete, decode, loaded, reserve}
use credbroker.Reliability.Retry.{admitted, call_with_retries, note_success}
use credbroker.Tools.{get_tool, answer, call, int_of, send}
use credbroker.World.{
  redis_read, await, query, utcnow, redis_write, run_store, assign, commit, draw, emit,
}
use mathlib.Core.Option.{bind}
use credbroker.Invoke.Outcome.{InvokeOutcome, Reason}
use credbroker.Grants.Service.{revoke_grant}
use credbroker.Logging.{scrub}
use credbroker.Cache.GrantCache.{record_revoked}
use credbroker.Models.{update_where}
use credbroker.World.{World}
use credbroker.Models.{Status}
use credbroker.Scenario.{calm, test_service, granted_world, test_token, drive_read}
use credbroker.Scenario.MapRedis.{Keys}

abbrev pub idempotency_key : Option Text
idempotency_key = some (codes "key")

abbrev pub success_outcome : InvokeOutcome
success_outcome = record {
  status = Status.success;
  result = some (obj end);
  error = none;
  latency_ms = 0;
  from_cache = false;
  denied_reason = none;
}

pub invoke_succeeds :
    (invoke calm test_service test_token drive_read end idempotency_key granted_world).0
    ≡ ok success_outcome
unfolding ◌>>=◌ decrypt_now verify_grant_token decimal text_eq bind is_revoked redis_read await
    query find invoke_resolved utcnow check redis_write run_store get_tool get decimal_value
    starts_with decrypt on_registry to_thread attempt gets lift modify pure raise raise_if
    record_call is_revoked_now call_provider circuit_for execute_call denied failed succeeded lookup
    register allow make record_success sync complete decode loaded reserve admitted
    call_with_retries note_success answer call int_of send assign commit draw emit invoke
invoke_succeeds = refl

-- The same invocation after the grant was revoked.
abbrev pub revoked_world : World Keys
revoked_world = (revoke_grant calm true 9 granted_world).1

abbrev pub denied_outcome : InvokeOutcome
denied_outcome = record {
  status = Status.denied;
  result = none;
  error = some (codes "grant has been revoked");
  latency_ms = 0;
  from_cache = false;
  denied_reason = some Reason.revoked;
}

pub invoke_denied :
    (invoke calm test_service test_token drive_read end idempotency_key revoked_world).0
    ≡ ok denied_outcome
unfolding ◌>>=◌ verify_grant_token decimal text_eq bind is_revoked redis_read await query find
    invoke_resolved redis_write run_store decimal_value starts_with attempt gets modify pure
    record_call denied scrub assign commit draw emit utcnow invoke revoke_grant record_revoked
    update_where
invoke_denied = refl
