-- ===== src/Chat.antt =====
-- internal/chat: the service that keeps the messages, on a collection of MongoDB.
pub mod Repository
pub mod Service
pub mod Store
pub mod Saving
pub mod Reading
