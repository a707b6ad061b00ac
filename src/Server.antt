-- ===== src/Server.antt =====
-- src/protocol/server.rs: a session of the server.
pub mod State
pub mod Handlers
pub mod Run
pub mod Accept
pub mod Listen
pub mod Gate
pub mod Reach
pub mod Panic
pub mod Silence
pub mod Delivery
pub mod Trust
