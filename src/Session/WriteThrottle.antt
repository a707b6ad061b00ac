-- ===== src/Session/WriteThrottle.antt =====
-- `TwsTcpWriteThrottlingHandler` of src/protocol/shared.rs: it turns the throttling of a TCP writer into
-- state packets for the other side.
use tws_rust.Prelude.{ℕ, List, [], ◌∷◌, ◌++◌, Bool, true, false, refl}
use tws_rust.Text.Bytes.{Bytes}
use tws_rust.Protocol.Packet.{pause, resume}
use tws_rust.Protocol.Packet
use tws_rust.Protocol.State.{connect_state_build}
use tws_rust.Util.Throttling.{ThrottlingHandler, IsLawful}
use tws_rust.Session.Message.{OwnedMessage, text}

-- `outbox` holds what the handler has fed to the WebSocket writer, oldest first; the session moves it
-- there when the call that fed it is over.
pub record WriteThrottle : Type 0 where
  pub conn_id : Bytes
  pub paused : Bool
  pub outbox : List OwnedMessage

unfoldable pub pause_remote : ℕ → WriteThrottle → WriteThrottle
pause_remote max_speed h = record h {
  paused = true;
  outbox = h.outbox ++ text (connect_state_build h.conn_id Packet.pause) ∷ [];
}

unfoldable pub resume_remote : WriteThrottle → WriteThrottle
resume_remote h = record h {
  paused = false;
  outbox = h.outbox ++ text (connect_state_build h.conn_id Packet.resume) ∷ [];
}

abbrev pub write_throttling : ThrottlingHandler WriteThrottle
write_throttling = record {
  pause = pause_remote;
  resume = resume_remote;
  is_paused = λ h. h.paused;
  allow_pause_multiple_times = false;
}

pub write_throttling-IsLawful : IsLawful write_throttling
unfolding pause_remote resume_remote
write_throttling-IsLawful = record { paused = λ speed h. refl; resumed = λ h. refl }
