-- ===== src/Text.antt =====
-- The parts of the standard library's `str` and number formatting that the protocol's text packets
-- use. A text is its bytes; a `&str` is a text that `Utf8.is_utf8` accepts.
pub mod Bytes
pub mod Utf8
pub mod Search
pub mod Split
pub mod Decimal
