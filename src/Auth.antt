-- ===== src/Auth.antt =====
-- auth/auth.go: the tokens of the platform, of tenants and for step-up, over `golang-jwt`.
pub mod Jwt
mod Secret
pub mod Claims
pub mod Tokens
pub mod RoundTrip
pub mod Sample
pub mod Fixtures
mod Kinds
mod Tests
