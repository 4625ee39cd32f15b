-- ===== src/Runtimeguard.antt =====
-- runtimeguard: rate limits and short locks, held in the memory of one process or in Redis.
pub mod Limiter
pub mod Locks
pub mod Redis
pub mod Windows
