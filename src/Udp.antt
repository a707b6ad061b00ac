-- ===== src/Udp.antt =====
-- src/protocol/udp.rs: UDP clients as streams.
pub mod Handle
pub mod Stream
pub mod Datagram
