-- ===== src/Cache/RateLimiter/Window.antt =====
-- In one window, the limiter admits the first `limit` events of a key and no more.
use credbroker.Common.{ℕ, ◌+◌, ◌≡◌, Text, Bool, some, List, [], ◌∷◌, decimal}
use credbroker.Cache.RateLimiter.{check, counter_key}
use credbroker.Exec.{Result}
use credbroker.World.{World, Outside, sleep}
use credbroker.World.Alone.{Alone}

abbrev pub total : List ℕ → ℕ
total [] = 0
total (d ∷ ds) = d + total ds

module _ (o : Outside) where
  open o.redis use {Store, view}

  -- More events of a key, each after a delay.
  unfoldable pub checks : Text → ℕ → List ℕ → Result Bool × World Store → Result Bool × World Store
  checks key limit [] last = last
  checks key limit (d ∷ ds) last = checks key limit ds (check o key limit (sleep o d last.1).1)

  record Counted (key : Text) (window n deadline : ℕ) (w : World Store) : Type 0 where
    at :
        view w.store (counter_key key window)
        ≡ some (record { value = decimal n; deadline = some deadline })
