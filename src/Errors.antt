-- ===== src/Errors.antt =====
-- credbroker/errors.py, beside the exceptions of other libraries that the code catches.
use credbroker.Common.{ℕ, Text, Option}

-- The subclasses of `CredBrokerError` that carry a message only.
pub data BrokerError : Type 0 where
  unknown_agent unknown_tool policy_denied grant_scope_mismatch : BrokerError
  no_connected_account concurrency_limit rate_limited grant_not_found : BrokerError
  grant_expired grant_revoked grant_token_invalid : BrokerError
  idempotency_conflict provider_unavailable oauth_flow : BrokerError

-- An exception with its `str(exc)`. `provider_call` has the HTTP status beside the message; the
-- others are httpx's timeout, its other transport errors, the rest of its `HTTPError`, botocore's
-- `ClientError`, Python's `ValueError` and `AssertionError`, and any other class.
pub data Exn : Type 0 where
  broker : BrokerError → Text → Exn
  provider_call : Text → Option ℕ → Exn
  timeout transport http_error client_error value_error assertion other : Text → Exn

-- `str(exc)`
unfoldable pub message : Exn → Text
message (broker _ m) = m
message (provider_call m _) = m
message (timeout m) = m
message (transport m) = m
message (http_error m) = m
message (client_error m) = m
message (value_error m) = m
message (assertion m) = m
message (other m) = m
