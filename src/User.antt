-- ===== src/User.antt =====
-- internal/user: users, rooms and their members over PostgreSQL, and refresh tokens over Redis.
pub mod Db
pub mod Tx
pub mod Validation
pub mod Rooms
pub mod Tokens
pub mod Accounts
pub mod Hasher
