-- ===== src/Net.antt =====
-- Socket addresses as the program prints and reads them (`addr_to_str` and `str_to_addr` of
-- src/protocol/util.rs), over the standard library's own printer and parser.
pub mod Addr
pub mod Show
pub mod Read
pub mod Convert
pub mod Numbers
pub mod RoundTrip
