-- ===== src/Lock.antt =====
-- lock and idempotent: locks in Redis that only the token of their owner gives back.
pub mod Keys
pub mod Distributed
pub mod Simple
mod Held
pub mod Ownership
mod Duplicates
pub mod Sample
mod Tests
