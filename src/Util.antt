-- ===== src/Util.antt =====
-- src/protocol/util.rs: the speedometer, the throttling handlers, the shared writer and its stream, the
-- alternating stream, the heartbeat and the random identifiers.
pub mod RandStr
pub mod Speedometer
pub mod Throttling
pub mod SharedStream
pub mod Alternating
pub mod Heartbeat
