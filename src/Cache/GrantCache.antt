-- ===== src/Cache/GrantCache.antt =====
-- `GrantCache` of credbroker/cache/grants_cache.py.
pub mod Calls
pub mod Revocation
use credbroker.Common.{ℕ, Text, Bool, ◌++◌, codes}
use credbroker.Exec.{◌>>=◌, ◌>>◌}
use credbroker.World.{Outside, M, await, redis_read, redis_write}

abbrev pub issued_key : Text → Text
issued_key token_hash = codes "grant:" ++ token_hash

abbrev pub revoked_key : Text → Text
revoked_key token_hash = codes "revoked:" ++ token_hash

abbrev pub default_revoked_ttl_seconds : ℕ
default_revoked_ttl_seconds = 600

module _ (o : Outside) where
  open o.redis use {set, delete, has}

  unfoldable pub record_issued : Text → ℕ → M o (Unit {0})
  record_issued token_hash ttl_seconds =
      redis_write o λ now s. (tt, set now (issued_key token_hash) (codes "1") ttl_seconds s)

  -- with the default of `ttl_seconds`, which every caller takes
  unfoldable pub record_revoked : Text → M o (Unit {0})
  record_revoked token_hash = do
    redis_write o
        λ now s. (tt, set now (revoked_key token_hash) (codes "1") default_revoked_ttl_seconds s)
    redis_write o λ now s. (tt, delete (issued_key token_hash) s)

  unfoldable pub is_revoked : Text → M o Bool
  is_revoked token_hash = redis_read o λ now s. has now (revoked_key token_hash) s

  unfoldable pub is_known : Text → M o Bool
  is_known token_hash = redis_read o λ now s. has now (issued_key token_hash) s
