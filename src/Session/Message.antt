-- ===== src/Session/Message.antt =====
-- `OwnedMessage` of the WebSocket crate, and its size (`SizedBuf` in src/protocol/util.rs).
use tws_rust.Prelude.{ℕ, length}
use tws_rust.Text.Bytes.{Bytes}

pub data OwnedMessage : Type 0 where
  text binary ping pong : Bytes → OwnedMessage
  close : OwnedMessage

unfoldable pub get_size : OwnedMessage → ℕ
get_size (text s) = length s
get_size (binary s) = length s
get_size _ = 0
