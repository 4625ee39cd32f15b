-- ===== src/Cache.antt =====
-- cache/lru.go: the in-process cache.
pub mod Lru
mod Elements
mod Recency
mod Tied
mod Writes
mod Refinement
mod Tests
