-- ===== src/Shared.antt =====
-- internal/shared: what the services share.
pub mod RateLimit
pub mod Keyspace
pub mod Membership
pub mod Http
pub mod Middleware
