-- ===== src/Scenario/Tests.antt =====
-- The theorems at concrete inputs: the broker, its grants and its tokens.
pub mod Parts
pub mod Calls
pub mod Surface
pub mod Operator
pub mod Connect
pub mod Secrets
use credbroker.Common.{
  ℕ, Text, Bool, true, false, Option, none, some, List, [], ◌∷◌, ◌≡◌, ◌≢◌, refl, ap, codes, text_eq,
  decimal, decimal_value-decimal, arith,
}
use credbroker.Exec.{Result, ok, err, ◌>>=◌}
use credbroker.Errors.{broker, unknown_agent}
use credbroker.Grants.Service.{
  IssuedGrant, new_grant, latest_account, insert_grant, issue, request_grant, revoke_grant,
  count_active,
}
use credbroker.Grants.Service.Authorize.{Authorized}
use credbroker.Grants.Service.Bound.{Bounded, request_grant-Bounded}
use credbroker.Grants.Service.Issue.{Granted, issue-Granted}
use credbroker.Grants.Tokens.{sign_grant_token, verify_grant_token}
use credbroker.Grants.Tokens.RoundTrip.{TokenLaws, verify-sign}
use credbroker.Grants.Service.Revoke.{by_hash, by_id}
use credbroker.Invoke.Revocation.{revoke_grant-Denies}
use credbroker.Invoke.Execute.{provider_loop}
use credbroker.Invoke.Execute.Fuel.{provider_loop-Enough}
use credbroker.Invoke.Service.Returns.{invoke-Returns}
use credbroker.Tools.{drive_list_files}
use credbroker.Invoke.Outcome.{InvokeOutcome}
use credbroker.Invoke.Service.{invoke}
use credbroker.Invoke.Service.Checks.{Checked, invoke-Checked}
use credbroker.Invoke.Service.Guard.{Guarded, invoke-Guarded}
use credbroker.Json.{Json, Fields, obj, end}
use credbroker.Tools.{get_tool}
use credbroker.Models.{find, Status, ConnectedAccount}
use credbroker.Scenario.{
  calm, test_settings, test_service, test_account, test_grant, start_world, granted_world,
  test_token, drive_read, read_scope,
}
use credbroker.Scenario.MapRedis.{Keys}
use credbroker.Scenario.Runs.{
  revoked_world, denied_outcome, invoke_denied, idempotency_key, success_outcome, invoke_succeeds,
}
use credbroker.Scenario.Codec.{decode-write, decode-expired, decode-immature}
use credbroker.World.{World, await, draw, utcnow}
use credbroker.World.Alone.{Alone}

pub calm-Alone : Alone calm
calm-Alone = record { no_others = λ n s. refl; no_fault = λ n. refl }

invoke-Guarded_example :
    Guarded
      (invoke calm test_service test_token drive_read end idempotency_key granted_world).1.trace
invoke-Guarded_example =
    invoke-Guarded calm test_service test_token drive_read end idempotency_key granted_world tt

invoke-Checked_example : Checked calm test_service test_token drive_read granted_world
invoke-Checked_example =
    invoke-Checked calm calm-Alone test_service test_token drive_read end idempotency_key
      granted_world success_outcome invoke_succeeds refl

pub start-Bounded : Bounded 1 start_world
unfolding count_active
start-Bounded = record {
  within = λ agent tool scope. omega arith;
  pending_Harmless = λ agent tool scope now db. omega arith;
}

request_grant-Bounded_example :
    Bounded 1 (request_grant calm test_settings true true 1 drive_read read_scope start_world).1
request_grant-Bounded_example =
    request_grant-Bounded calm test_settings (λ n s h. h) true true 1 drive_read read_scope
      start_world start-Bounded

abbrev first_grant : IssuedGrant
first_grant = new_grant calm test_settings 1 test_account drive_read read_scope 1000 1_000_000_000

issue_grants : (issue calm test_settings 1 drive_read read_scope start_world).0 ≡ ok first_grant
unfolding issue ◌>>=◌ await find get_tool latest_account count_active text_eq draw utcnow
    sign_grant_token decimal
issue_grants = refl

issue-Granted_example :
    Granted calm test_settings 1 drive_read read_scope
      (await calm start_world).1
      first_grant
      (issue calm test_settings 1 drive_read read_scope start_world).1.db
issue-Granted_example =
    issue-Granted calm test_settings 1 drive_read read_scope start_world first_grant issue_grants

calm-TokenLaws : TokenLaws calm test_settings
calm-TokenLaws = record {
  accepted_lem = λ p sub jti iat exp now (from, subject, id, issued, expires).
      decode-write p (codes "private") (codes "public") (codes "credbroker") sub jti iat exp now
        from subject id issued expires;
  expired_lem = λ p sub jti iat exp now (from, subject, id, issued, expires).
      decode-expired p (codes "private") (codes "public") (codes "credbroker") sub jti iat exp now
        from subject id issued expires;
  immature_lem = λ p sub jti iat exp now (from, subject, id, issued, expires).
      decode-immature p (codes "private") (codes "public") (codes "credbroker") sub jti iat exp now
        from subject id issued expires;
  uuid_lem = λ n. ap some (decimal_value-decimal n);
}

verify-sign_example :
    verify_grant_token calm
      (sign_grant_token calm test_settings 9 1 drive_read read_scope 1_000_000_000 1_300_000_000)
      test_settings
      1_100_000_000
    ≡ ok (record { grant_id = 9; agent_id = 1; tool_name = drive_read; scope = read_scope })
verify-sign_example =
    verify-sign calm test_settings 9 1 drive_read read_scope 1_000_000_000 1_300_000_000
      1_100_000_000 calm-TokenLaws

pub granted_first : find (by_hash test_token) (test_grant ∷ []) ≡ some test_grant
unfolding find text_eq decimal
granted_first = refl

pub granted_nine : find (by_id 9) (test_grant ∷ []) ≡ some test_grant
unfolding find
granted_nine = refl

revoke_grant-Denies_example : denied_outcome.status ≢ Status.success
revoke_grant-Denies_example =
    revoke_grant-Denies calm calm-Alone test_service true test_token drive_read end idempotency_key
      test_grant granted_world revoked_world denied_outcome (λ db. refl) granted_nine granted_first
      refl refl invoke_denied

invoke-Returns_example :
    (outcome : InvokeOutcome) × ((invoke calm test_service test_token drive_read end idempotency_key
        granted_world).0
      ≡ ok outcome)
invoke-Returns_example =
    invoke-Returns calm test_service (λ n. refl) test_token drive_read end idempotency_key
      granted_world

provider_loop-Enough_example :
    provider_loop calm test_service test_grant test_token
      (drive_list_files test_settings)
      end
      0
      7
      test_account
      false
      (codes "access-token")
      granted_world
    ≡ provider_loop calm test_service test_grant test_token
        (drive_list_files test_settings)
        end
        0
        2
        test_account
        false
        (codes "access-token")
        granted_world
provider_loop-Enough_example =
    provider_loop-Enough calm test_service test_grant test_token (drive_list_files test_settings)
      end 0 5 test_account false (codes "access-token") granted_world
