-- ===== src/Job.antt =====
-- job, jobpayload and utils/backoff.go: leases, delays between retries, cron lines and payloads.
pub mod Lease
pub mod Backoff
pub mod Delays
pub mod Cron
pub mod Joined
pub mod Normalized
pub mod Payload
mod Tests
