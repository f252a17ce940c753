-- ===== src/Console/State.antt =====
-- credbroker/app.py: the state of the HTTP application that the routes use.
use credbroker.Common.{Bool}
use credbroker.Config.{Settings}
use credbroker.Invoke.Outcome.{InvokeService}

-- `app.state`: `create_app` makes the Redis-backed collaborators where there is a Redis client.
pub record AppState : Type 0 where
  pub settings : Settings
  pub grant_cache : Bool
  pub rate_limiter : Bool
  pub invoke_service : InvokeService

abbrev pub create_app : Settings → Bool → AppState
create_app settings has_redis = record {
  settings = settings;
  grant_cache = has_redis;
  rate_limiter = has_redis;
  invoke_service = record {
    settings = settings;
    grant_cache = has_redis;
    rate_limiter = has_redis;
    idempotency_store = has_redis;
  };
}
