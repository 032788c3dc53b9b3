-- ===== src/Websocket.antt =====
-- internal/websocket: the service that keeps rooms in memory and orders their messages.
pub mod Message
pub mod Session
pub mod Hub
pub mod Persistence
pub mod Lease
pub mod SequenceFloor
pub mod ManagedLease
pub mod Manager
pub mod Front
