-- ===== src/Invoke/Outcome.antt =====
-- `InvokeOutcome`, `_outcome` and the collaborators of `InvokeService` in
-- credbroker/invoke/service.py.
use credbroker.Common.{ℕ, ◌-◌, ◌/◌, Text, Bool, false, Option, none, some}
use credbroker.Config.{Settings}
use credbroker.Exec.{gets}
use credbroker.Json.{Json}
use credbroker.Logging.{scrub}
use credbroker.Models.{Status}
use credbroker.World.{Outside, M}
use mathlib.Core.Option

-- The values of `denied_reason`.
pub data Reason : Type 0 where
  invalid_token expired revoked not_found tool_mismatch scope_mismatch : Reason
  rate_limited idempotency_conflict : Reason

pub record InvokeOutcome : Type 0 where
  pub status : Status
  pub result : Option Json
  pub error : Option Text
  pub latency_ms : ℕ
  pub from_cache : Bool
  pub denied_reason : Option Reason

-- The settings, and which of the optional collaborators were injected.
pub record InvokeService : Type 0 where
  pub settings : Settings
  pub grant_cache : Bool
  pub rate_limiter : Bool
  pub idempotency_store : Bool

module _ (o : Outside) where
  -- `_outcome`, with `_elapsed_ms`: the clock counts microseconds
  outcome : Status → Option Json → Option Text → Option Reason → Bool → ℕ → M o InvokeOutcome
  outcome status result error reason from_cache start = gets λ w. record {
    status = status;
    result = result;
    error = Option.map (scrub w.secrets) error;
    latency_ms = (w.monotonic - start) / 1000;
    from_cache = from_cache;
    denied_reason = reason;
  }

  -- The ways in which `_outcome` is called.
  unfoldable pub denied : Text → Reason → ℕ → M o InvokeOutcome
  unfolding outcome
  denied error reason start = outcome Status.denied none (some error) (some reason) false start

  unfoldable pub failed : Text → ℕ → M o InvokeOutcome
  unfolding outcome
  failed error start = outcome Status.failed none (some error) none false start

  unfoldable pub succeeded : Json → Bool → ℕ → M o InvokeOutcome
  unfolding outcome
  succeeded result from_cache start =
      outcome Status.success (some result) none none from_cache start
