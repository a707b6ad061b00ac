-- ===== src/Client.antt =====
-- src/protocol/client.rs: a session of the client, and the choice and the restart of sessions.
pub mod State
pub mod Handlers
pub mod Safety
pub mod Expiry
pub mod Sessions
pub mod Pool
pub mod Request
pub mod Assign
pub mod Restart
