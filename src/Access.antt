-- ===== src/Access.antt =====
-- middleware/platform.go, permission.go, auth.go and role.go: the handlers that guard a route.
mod Bearer
mod Tokens
mod Tenants
mod Throttle
mod Permissions
mod Admission
mod Isolation
mod Tests
