-- ===== src/Ratelimit.antt =====
-- ratelimit: requests and tokens a minute and concurrent requests, counted in Redis by scripts.
pub mod Scripts
pub mod Limiter
pub mod Atomic
pub mod Rollback
pub mod Settle
pub mod Estimator
mod Tests
