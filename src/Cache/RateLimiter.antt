-- ===== src/Cache/RateLimiter.antt =====
-- `RateLimiter` of credbroker/cache/ratelimit.py.
pub mod Window
use credbroker.Common.{ℕ, ◌*◌, ◌/◌, Text, Bool, ◌++◌, codes, decimal, leb, ◌==◌, if◌then◌else◌}
use credbroker.Exec.{pure, gets, ◌>>=◌, ◌>>◌}
use credbroker.Redis.{second}
use credbroker.World.{Outside, M, redis_write}

-- The default of `window_seconds`, which every caller takes.
abbrev pub window_seconds : ℕ
window_seconds = 60

-- `int(time.time() // window_seconds)`
abbrev pub window_index : ℕ → ℕ
window_index now = now / (window_seconds * second)

abbrev pub counter_key : Text → ℕ → Text
counter_key key window = codes "ratelimit:" ++ (key ++ (codes ":" ++ decimal window))

module _ (o : Outside) where
  open o.redis use {incr, expire}

  unfoldable pub check : Text → ℕ → M o Bool
  check key limit = do
    window ← gets λ w. window_index w.now
    let name = counter_key key window
    count ← redis_write o λ now s. incr now name s
    if count == 1 then redis_write o (λ now s. (tt, expire now name window_seconds s)) else pure tt
    pure (leb count limit)
