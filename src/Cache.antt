-- ===== src/Cache.antt =====
-- credbroker/cache: the grant cache and the rate limiter.
pub mod GrantCache
pub mod RateLimiter
