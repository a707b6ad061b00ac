-- ===== src/Session.antt =====
-- src/protocol/shared.rs: what the sessions of the server and of the client share.
pub mod Message
pub mod WriteThrottle
pub mod Connection
pub mod ReadThrottle
pub mod Service
pub mod Writer
pub mod Heartbeat
pub mod Quiet
pub mod View
pub mod UdpTable
pub mod Close
pub mod Delivery
