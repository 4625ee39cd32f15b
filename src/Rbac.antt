-- ===== src/Rbac.antt =====
-- rbac/rbac.go: permission codes and what a granted code allows.
mod Matching
mod Covers
mod Tests
