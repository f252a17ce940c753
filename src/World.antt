-- ===== src/World.antt =====
-- The state that the broker's services share, what an invocation leaves to be observed, and the
-- code that is not in the repository. Every `await` of the source is a point where other tasks and
-- other broker processes may act, and where the awaited service may fail.
pub mod Trace
pub mod Alone
pub mod Returns
pub mod Tables
use credbroker.Common.{ℕ, suc, ◌+◌, Text, Bool, Option, none, some, List, ◌∷◌, ◌≡◌}
use credbroker.Errors.{Exn}
use credbroker.Exec.{Result, ok, err, Exec, lift, gets, modify, attempt, ◌>>=◌, ◌>>◌}
use credbroker.Redis.{Redis}
use credbroker.Json.{Json, Fields}
use credbroker.Models.{ConnectedAccount, AgentIdentity, Grant, ToolCallAuditLog, Database}
use credbroker.Reliability.Breaker.{CircuitBreaker}

-- What other tasks see and change too: the clocks, the tables, Redis, the breakers by provider and
-- the registered secrets.
pub record Shared (S : Type 0) : Type 0 where
  pub now : ℕ
  pub monotonic : ℕ
  pub db : Database
  pub store : S
  pub circuits : Text → Option CircuitBreaker
  pub secrets : List Text

-- What an operation does, in the order of its steps: a counter raised, a value observed by a
-- histogram, a stored credential opened, a
-- revocation check answered, a token refresh sent, a tool request sent with its bearer token, and an
-- audit row committed.
pub data Event : Type 0 where
  counted : Text → List Text → Event
  observed : Text → List Text → ℕ → Event
  decrypted : Event
  rechecked : Bool → Event
  refreshed : Event
  contacted : Text → Event
  audited : ToolCallAuditLog → Event

-- `trace` has the latest event first; `steps` counts the awaits, `drawn` the random values; `pending`
-- is what the operation's database session has changed and not committed.
pub record World (S : Type 0) : Type 0 where
  pub shared : Shared S
  pub open shared use *
  pub trace : List Event
  pub steps : ℕ
  pub drawn : ℕ
  pub pending : Database → Database

-- The claims of a grant token; a claim that is missing is `none`.
pub record Payload : Type 0 where
  pub iss : Option Text
  pub sub : Option Text
  pub jti : Option Text
  pub tool : Option Text
  pub scope : Option Text
  pub iat : Option ℕ
  pub exp : Option ℕ

-- How `jwt.decode` ends: `ExpiredSignatureError`, another `PyJWTError` or a `ValueError`, or claims.
pub data Decoded : Type 0 where
  expired_signature rejected : Decoded
  accepted : Payload → Decoded

-- An outbound request: its URL, parameters or form, and bearer token.
pub record Request : Type 0 where
  pub url : Text
  pub params : List (Text × Text)
  pub bearer : Option Text

-- A response: its status, and its body where that is JSON.
pub record Response : Type 0 where
  pub status_code : ℕ
  pub json : Option Json

-- Wraps and unwraps data keys: `generate_data_key` from a random draw, and `decrypt_data_key`.
pub record KeyManager : Type 0 where
  pub generate_data_key : ℕ → Result (Text × Text)
  pub decrypt_data_key : Text → Result Text

-- What is not in the repository. `others` is what the rest of the system does during one await,
-- `fault` the exception that the await raises, `random` the random integers in the order drawn.
pub record Outside : Type 1 where
  pub redis : Redis
  pub others : ℕ → Shared redis.Store → Shared redis.Store
  pub fault : ℕ → Option Exn
  pub random : ℕ → ℕ
  pub token_hex : ℕ → Text
  pub sha256 : Text → Text
  pub hmac_sha256 : Text → Text → Text
  pub repr : Text → Text
  pub uuid_str : ℕ → Text
  pub uuid_parse : Text → Option ℕ
  pub dumps : Json → Text
  pub canonical : Json → Text
  pub loads : Text → Option Json
  pub str_of : Json → Text
  pub base64_encode : Text → Text
  pub base64_decode : Text → Option Text
  pub int_text : Text → Option Text
  pub urlencode : List (Text × Text) → Text
  pub utf8 : Text → Text
  pub utf8_decode : Text → Option Text
  pub aesgcm_encrypt : Text → Text → Text → Text
  pub aesgcm_decrypt : Text → Text → Text → Option Text
  pub urandom : ℕ → ℕ → Text
  pub key_manager : KeyManager
  pub jwt_encode : Payload → Text → Text
  pub jwt_decode : Text → Text → Text → ℕ → Decoded
  pub http : ℕ → Request → Result Response

module _ (o : Outside) where
  abbrev pub M : Type 0 → Type 0
  M A = Exec (World o.redis.Store) A

  -- Other tasks act, then the awaited operation fails or goes on.
  unfoldable pub await : M (Unit {0})
  await w =
      let after = record w { shared = o.others w.steps w.shared; steps = w.steps + 1 } in
      elim (o.fault w.steps) [ none ↦ (ok tt, after) | some e ↦ (err e, after) ]

  unfoldable pub emit : Event → M (Unit {0})
  emit e = modify λ w. record w { trace = e ∷ w.trace }

  -- `utcnow()`
  unfoldable pub utcnow : M ℕ
  utcnow = gets λ w. w.now

  unfoldable pub draw : M ℕ
  draw w = (ok (o.random w.drawn), record w { drawn = w.drawn + 1 })

  -- A statement that reads the tables; `session.add` and assignments to the fields of rows; the
  -- session's `commit` and `rollback`.
  unfoldable pub query : {A : Type 0} → (Database → A) → M A
  query f = do await; gets λ w. f w.db

  unfoldable pub assign : (Database → Database) → M (Unit {0})
  assign f = modify λ w. record w { pending = λ db. f (w.pending db) }

  unfoldable pub commit : M (Unit {0})
  unfolding await
  commit = do
    await
    modify λ w. record w { shared = record w.shared { db = w.pending w.db }; pending = λ db. db }

  unfoldable pub rollback : M (Unit {0})
  unfolding await
  rollback = do modify λ w. record w { pending = λ db. db }; await

  -- `async with session_factory() as session`: a new session, which is closed however the body ends
  unfoldable pub in_session : {A : Type 0} → M A → M A
  unfolding await
  in_session body = do
    modify λ w. record w { pending = λ db. db }
    attempt body λ r. do modify λ w. record w { pending = λ db. db }; await; lift r

  -- `asyncio.sleep`, which takes the time that it is given
  unfoldable pub sleep : ℕ → M (Unit {0})
  unfolding await
  sleep d = do
    await
    modify
        λ w. record w { shared = record w.shared { now = w.now + d; monotonic = w.monotonic + d } }

  -- A Redis command that reads, and one that writes.
  unfoldable pub redis_read : {A : Type 0} → (ℕ → o.redis.Store → A) → M A
  redis_read f = do await; gets λ w. f w.now w.store

  -- a change of the store, with what it answers
  unfoldable pub run_store : {A : Type 0} → (ℕ → o.redis.Store → A × o.redis.Store) → M A
  run_store f w =
      let (a, s) = f w.now w.store in (ok a, record w { shared = record w.shared { store = s } })

  unfoldable pub redis_write : {A : Type 0} → (ℕ → o.redis.Store → A × o.redis.Store) → M A
  redis_write f = do await; run_store f
