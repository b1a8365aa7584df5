-- ===== src/Core.antt =====
-- app/core
pub mod RateLimiter
pub mod Idempotency
pub mod LoggingConfig
