-- ===== src/Reliability.antt =====
-- credbroker/reliability: the circuit breaker, the retries and the idempotency store.
pub mod Breaker
pub mod Retry
pub mod Idempotency
