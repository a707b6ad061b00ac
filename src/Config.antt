-- ===== src/Config.antt =====
-- The options of the program: src/parser.rs, src/main.rs, src/cli.yaml, and the option types of
-- src/protocol/client.rs and src/protocol/server.rs.
pub mod Options
pub mod Args
pub mod Agree
pub mod Main
