-- ===== src/Scenario.antt =====
-- A concrete broker for the tests: a Redis that is a function from keys to entries, a cipher that
-- appends an empty tag, tokens that are the claims' texts, and a world with one agent and one grant.
mod MapRedis
mod Codec
mod Runs
mod Tests
use credbroker.Common.{
  ℕ, zero, suc, ◌+◌, ◌-◌, ◌*◌, ◌/◌, ◌≡◌, refl, sym, ap, ◌∙◌, Text, Bool, true, false, Option, none,
  some, List, [], ◌∷◌, ◌++◌, codes, decimal, decimal_value, decimal_value-decimal, is_some, text_eq,
  ltb, leb, length, length-append, take, take-append, drop, if◌then◌else◌, arith,
}
use credbroker.Config.{Settings}
use credbroker.Exec.{Result, ok, err}
use credbroker.Invoke.Outcome.{InvokeService}
use credbroker.Json.{Json, Fields, str, obj, end, field}
use credbroker.Models.{ConnectedAccount, AgentIdentity, Grant, Database}
use credbroker.Redis.{Redis, Entry, live, second}
use credbroker.Reliability.Breaker.{CircuitBreaker}
use credbroker.Scenario.Codec.{write_payload, decode_token, write_query}
use credbroker.World.{
  Shared, World, Payload, Decoded, rejected, accepted, Request, Response, KeyManager, Outside,
}
use mathlib.Core.Option
use credbroker.Scenario.MapRedis.{Keys, map_redis}

abbrev tag : Text
tag = 0 ∷ 0 ∷ 0 ∷ 0 ∷ 0 ∷ 0 ∷ 0 ∷ 0 ∷ 0 ∷ 0 ∷ 0 ∷ 0 ∷ 0 ∷ 0 ∷ 0 ∷ 0 ∷ []

abbrev pub seal : Text → Text → Text → Text
seal key nonce plaintext = plaintext ++ tag

abbrev pub unseal : Text → Text → Text → Option Text
unseal key nonce ciphertext =
    if ltb (length ciphertext) 16 then none else some (take (length ciphertext - 16) ciphertext)

abbrev pub replicate : ℕ → ℕ → Text
replicate zero x = []
replicate (suc n) x = x ∷ replicate n x

pub length-replicate : (n x : ℕ) → length (replicate n x) ≡ n
length-replicate zero x = refl
length-replicate (suc n) x = ap suc (length-replicate n x)

pub unseal-seal :
    (key nonce plaintext : Text) → unseal key nonce (seal key nonce plaintext) ≡ some plaintext
unseal-seal key nonce plaintext =
    let size : length (plaintext ++ tag) ≡ length plaintext + 16 = length-append plaintext tag in
    let cut : length plaintext + 16 - 16 ≡ length plaintext = omega arith in
    rw (size, cut, take-append plaintext tag) (ground arith)

abbrev pub fixed_keys : KeyManager
fixed_keys = record {
  generate_data_key = λ r. ok (replicate 32 r, replicate 32 r);
  decrypt_data_key = λ wrapped. ok wrapped;
}

-- A broker without faults, alone with its data.
abbrev pub calm : Outside
calm = record {
  redis = map_redis;
  others = λ n s. s;
  fault = λ n. none;
  random = λ n. n + 1000;
  token_hex = λ r. decimal r;
  sha256 = λ t. t;
  hmac_sha256 = λ key t. decimal (length t);
  repr = λ t. codes "'" ++ (t ++ codes "'");
  uuid_str = λ n. decimal n;
  uuid_parse = λ t. some (decimal_value t);
  dumps = λ j. codes "{}";
  canonical = λ j. codes "{}";
  loads = λ t. if text_eq t (codes "{}") then some (obj end) else none;
  base64_encode = λ t. t;
  base64_decode = λ t. some t;
  str_of = λ j. codes "text";
  int_text = λ t. some t;
  urlencode = write_query;
  utf8 = λ t. t;
  utf8_decode = λ t. some t;
  aesgcm_encrypt = seal;
  aesgcm_decrypt = unseal;
  urandom = replicate;
  key_manager = fixed_keys;
  jwt_encode = write_payload;
  jwt_decode = decode_token;
  http = λ n request. ok (record { status_code = 200; json = some (obj end) });
}

abbrev pub test_settings : Settings
test_settings = record {
  public_base_url = codes "http://localhost:8000";
  google_client_id = codes "client";
  google_client_secret = codes "secret";
  oauth_state_secret = codes "state";
  oauth_state_ttl_seconds = 600;
  kms_key_id = [];
  aws_region = codes "us-east-1";
  local_master_key_b64 = [];
  grant_token_ttl_seconds = 300;
  jwt_private_key_pem = codes "private";
  jwt_public_key_pem = codes "public";
  jwt_issuer = codes "credbroker";
  max_active_grants_per_agent_scope = 1;
  idempotency_window_seconds = 300;
  outbound_max_retries = 2;
  outbound_base_delay_seconds = 1;
  circuit_failure_threshold = 5;
  circuit_reset_seconds = 30 * second;
  grants_per_minute_per_agent = 10;
  invokes_per_minute_per_agent = 60;
  drive_api_base_url = [];
  console_token = [];
}

abbrev pub test_service : InvokeService
test_service = record {
  settings = test_settings;
  grant_cache = true;
  rate_limiter = true;
  idempotency_store = true;
}

abbrev pub test_agent : AgentIdentity
test_agent = record {
  id = 1;
  user_id = 7;
  name = codes "agent";
  allowed_scopes = codes "drive.read" ∷ [];
  created_at = 0;
}

abbrev pub test_account : ConnectedAccount
test_account = record {
  id = 2;
  user_id = 7;
  provider = codes "google";
  encrypted_access_token =
      codes "CB1"
      ++ 0 ∷ 32 ∷ (replicate 32 5 ++ (replicate 12 6 ++ seal [] [] (codes "access-token")));
  encrypted_refresh_token = none;
  scopes_granted = [];
  expires_at = none;
  created_at = 0;
}

abbrev pub empty_database : Database
empty_database = record {
  accounts = test_account ∷ [];
  agents = test_agent ∷ [];
  grants = [];
  audit_log = [];
}

abbrev pub start_world : World Keys
start_world = record {
  shared = record {
    now = 1_000_000_000;
    monotonic = 0;
    db = empty_database;
    store = λ k. none;
    circuits = λ p. none;
    secrets = [];
  };
  trace = [];
  steps = 0;
  drawn = 0;
  pending = λ db. db;
}

abbrev pub drive_read : Text
drive_read = codes "drive.read"

abbrev pub read_scope : Text
read_scope = codes "read"

abbrev pub test_token : Text
test_token =
    write_payload
      (record {
        iss = some (codes "credbroker");
        sub = some (decimal 1);
        jti = some (decimal 9);
        tool = some drive_read;
        scope = some read_scope;
        iat = some 1000;
        exp = some 1300;
      })
      (codes "private")

abbrev pub test_grant : Grant
test_grant = record {
  id = 9;
  agent_id = 1;
  connected_account_id = 2;
  tool_name = drive_read;
  scope = read_scope;
  grant_token_hash = test_token;
  issued_at = 1_000_000_000;
  expires_at = 1_300_000_000;
  revoked_at = none;
}

-- The world with the grant in it.
abbrev pub granted_world : World Keys
granted_world = record start_world {
  shared = record start_world.shared { db = record empty_database { grants = test_grant ∷ [] } };
}
