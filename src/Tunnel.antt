-- ===== src/Tunnel.antt =====
-- Both sides together: what src/protocol/client.rs and src/protocol/server.rs do to each other.
pub mod Steps
pub mod Connecting
pub mod Data
pub mod Pressure
pub mod Datagrams
pub mod Visitors
