-- ===== src/Protocol.antt =====
-- src/protocol/protocol.rs: building and parsing the packets of the protocol.
pub mod Packet
pub mod Auth
pub mod Connect
pub mod Handshake
pub mod State
pub mod Data
pub mod Dispatch
pub mod ConnId
pub mod Exchange
pub mod Packed
pub mod Trust
