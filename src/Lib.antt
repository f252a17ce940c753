-- ===== src/Lib.antt =====
-- CredBroker: a broker that lends agents the credentials of connected accounts. An agent asks for a
-- short-lived grant for one tool and scope (credbroker/grants/service.py), and calls the tool under
-- the grant's signed token (credbroker/invoke/service.py); the broker decrypts the credential, checks
-- that the grant is not revoked, calls the provider and writes an audit row.
--
-- The parts and their files, from credbroker/ on the one side and this directory on the other:
--   errors.py: Errors; config.py: Config; db/models.py: Models;
--   logging_config.py: Logging, Logging/Filter and Logging/Setup;
--   reliability/retry.py: Reliability/Breaker and Reliability/Retry;
--   reliability/idempotency.py: Reliability/Idempotency;
--   cache/grants_cache.py: Cache/GrantCache; cache/ratelimit.py: Cache/RateLimiter;
--   crypto/kms.py: Crypto (TokenCipher, LocalKeyManager) and Crypto/Build (AwsKmsKeyManager and
--   build_token_cipher); tools/: Tools;
--   oauth/google.py: OAuth/Google; oauth/state.py: OAuth/State; oauth/router.py: OAuth/Router;
--   grpcserver/: Grpc/Messages (the messages and codes) and Grpc/Servicer (the RPCs);
--   console/api.py: Console/Views (what the routes take and answer with), Console/Api (the handlers),
--   Console/Routes (the router and its authentication) and Console/Order (ORDER BY);
--   demo/: Demo/Seed and Demo/FakeDrive; app.py and main.py: Console/State (create_app) and Process;
--   grants/tokens.py: Grants/Tokens; grants/service.py: Grants/Service; invoke/audit.py: Invoke/Audit;
--   invoke/service.py: Invoke/Outcome (InvokeOutcome, _outcome), Invoke/Credential
--   (_refresh_credential, _refresh_or_outcome, _can_refresh, _is_revoked_now), Invoke/Execute
--   (_circuit_for, _call_provider, _execute_call) and Invoke/Service (_invoke_resolved, invoke);
--   Broker has the calls that the two servers serve, one after the other.
-- Functions keep the names of the source, without a leading underscore; a branch of a long function is
-- a helper that is named for what it does.
--
-- State. An operation is a function from a world to a result, or the exception that it raises, and the
-- world after it (Exec). The world (World) holds what other tasks share - the clocks, the tables,
-- Redis, the breakers, the registered secrets - and the operation's own trace of events, unsaved
-- changes and counts. Each `await` lets any other activity act on the shared part and may then raise
-- any exception; both are parameters, so that a theorem with no further hypothesis holds for every
-- interleaving. World/Alone says what it is for nothing to interfere. Exec/Keeps and World/Trace carry
-- invariants through the operations; the modules named Keeping and Trace have the rules of a component.
--
-- What is not in the repository is a parameter: Redis by its documented commands (Redis), and PyJWT,
-- AES-GCM, SHA-256, uuid, JSON, httpx and the key manager (Outside in World), boto3 and base64
-- (Crypto/Build); the laws that a theorem needs of them are its hypotheses (TokenLaws, CipherLaws,
-- WrapLaws, StateLaws, UuidLaws, UrlLaws, KmsLaws, and Supplies for a key manager that answers). An HTTP route
-- ends with an answer or an HTTPException (Http), an RPC with a response or an abort (Grpc/Messages).
-- Scenario gives all of them concrete functions and runs the broker with them.
--
-- Bounds. Numbers are natural; times count microseconds, and a two-byte length in a credential blob
-- keeps its range. The retry loop recurs on the rounds that are left, which the source's range bounds;
-- the `while True` loop of _execute_call is given two rounds, since a round that goes on has refreshed
-- the credential and no later round refreshes again. A list's limit is what FastAPI lets through, from
-- 1 to 500, and 50 where none is given; the pages' theorems hold for any limit.
--
-- Not modelled: the routes that serve the static page, the health checks and the metrics; the parsing of
-- requests and the writing of answers by FastAPI, pydantic and gRPC, with the ISO 8601 form of times;
-- binding ports, signals and the life cycle of the process; reading the environment; log lines; the
-- declarations of the metrics, though counting is an event; the database migrations and the generated
-- code. None of them holds state that the modelled operations read.
-- Simplified: the statements of a grant request under the row lock are one step of the database; the
-- breakers by provider are one map in the world, where the source has one for each invocation service;
-- and the close of an invocation's session after its audit row is no await of its own.
pub mod Broker
pub mod Common
pub mod Errors
pub mod Exec
pub mod Redis
pub mod Json
pub mod Config
pub mod Models
pub mod Reliability
pub mod World
pub mod Http
pub mod Logging
pub mod Cache
pub mod Crypto
pub mod Tools
pub mod OAuth
pub mod Grants
pub mod Invoke
pub mod Grpc
pub mod Demo
pub mod Console
pub mod Process
pub mod Scenario
