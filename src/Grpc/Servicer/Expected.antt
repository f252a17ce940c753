-- ===== src/Grpc/Servicer/Expected.antt =====
-- The replies that the results of the services stand for.
use credbroker.Common.{ℕ, zero, Text, true, false, [], ◌∷◌, Option, none, some, ◌++◌, codes}
use credbroker.Errors.{
  BrokerError, broker, grant_not_found, unknown_agent, unknown_tool, policy_denied,
  grant_scope_mismatch, no_connected_account, concurrency_limit, rate_limited,
}
use credbroker.Exec.{Result, ok, err}
use credbroker.Grants.Service.{IssuedGrant}
use credbroker.Grpc.Servicer.{internal_error}
use credbroker.Grpc.Messages.{
  StatusCode, Reply, response, aborted, GrantResponse, InvokeResponse, RevokeResponse,
}
use credbroker.Invoke.Outcome.{InvokeOutcome, Reason}
use credbroker.Json.{Json, Fields, null, bool, num, str, arr, obj, nil, end}
use credbroker.Models.{Grant, Status}
use credbroker.World.{Outside}

-- The codes of the denials, by the class of the exception.
abbrev pub expected_code : BrokerError → Option StatusCode
expected_code unknown_agent = some StatusCode.not_found
expected_code unknown_tool = some StatusCode.not_found
expected_code policy_denied = some StatusCode.permission_denied
expected_code grant_scope_mismatch = some StatusCode.permission_denied
expected_code no_connected_account = some StatusCode.failed_precondition
expected_code concurrency_limit = some StatusCode.resource_exhausted
expected_code rate_limited = some StatusCode.resource_exhausted
expected_code unlisted = none

-- An error text that is not empty; else the default.
abbrev pub expect_error : Option Text → Text → Text
expect_error (some (c ∷ t)) default = c ∷ t
expect_error blank default = default

module _ (o : Outside) where
  -- The replies to a request whose id is a UUID.
  abbrev pub expect_uuid : {A : Type 0} → Text → (ℕ → Reply A) → Option ℕ → Reply A
  expect_uuid field rest none =
      aborted StatusCode.invalid_argument (field ++ codes " must be a valid UUID")
  expect_uuid field rest (some id) = rest id

  abbrev pub hidden : {A : Type 0} → Reply A
  hidden = aborted StatusCode.internal (internal_error o)

  abbrev pub expect_code : Text → Option StatusCode → Reply GrantResponse
  expect_code m none = hidden
  expect_code m (some code) = aborted code m

  -- The token of a grant; the message of a denial under its code; nothing of any other exception.
  abbrev pub expect_grant : Result IssuedGrant → Reply GrantResponse
  expect_grant (ok issued) = response (record {
    grant_token = issued.token;
    expires_at = issued.grant.expires_at;
    grant_id = o.uuid_str issued.grant.id;
  })
  expect_grant (err (broker e m)) = expect_code m (expected_code e)
  expect_grant (err x) = hidden

  abbrev pub expect_revoked : Result Grant → Reply RevokeResponse
  expect_revoked (ok grant) = response (record { revoked = true })
  expect_revoked (err (broker grant_not_found m)) = aborted StatusCode.not_found m
  expect_revoked (err x) = hidden

  abbrev pub succeeded : Fields → Reply InvokeResponse
  succeeded fields = response (record { result = fields; status = codes "success" })

  -- An object is the result; a value that counts as empty stands for no fields; any other value cannot
  -- be a message.
  abbrev pub expect_result : Option Json → Reply InvokeResponse
  expect_result none = succeeded end
  expect_result (some (obj fields)) = succeeded fields
  expect_result (some null) = succeeded end
  expect_result (some (bool false)) = succeeded end
  expect_result (some (num zero)) = succeeded end
  expect_result (some (str [])) = succeeded end
  expect_result (some (arr nil)) = succeeded end
  expect_result (some other_value) = hidden

  abbrev pub expect_denied : Option Reason → Text → Reply InvokeResponse
  expect_denied (some Reason.rate_limited) details = aborted StatusCode.resource_exhausted details
  expect_denied reason details = aborted StatusCode.permission_denied details

  abbrev pub expect_status : InvokeOutcome → Status → Reply InvokeResponse
  expect_status outcome Status.success = expect_result outcome.result
  expect_status outcome Status.failed =
      aborted StatusCode.unavailable (expect_error outcome.error (codes "tool call failed"))
  expect_status outcome Status.denied =
      expect_denied outcome.denied_reason (expect_error outcome.error (codes "invocation denied"))

  -- The result of a success, where it is a JSON object; the error text of any other outcome, under
  -- the code for its status and reason.
  abbrev pub expect_outcome : InvokeOutcome → Reply InvokeResponse
  expect_outcome outcome = expect_status outcome outcome.status
