-- ===== src/Security.antt =====
-- backend/src/security: the services that coordinate requests, as they run on the process-local
-- `Map` when no REDIS_URL is configured.
pub mod CircuitBreaker
pub mod Throttle
pub mod Lock
pub mod Schedule
pub mod Idempotency
pub mod Governor
