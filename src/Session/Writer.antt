-- ===== src/Session/Writer.antt =====
-- What the operations of src/protocol/shared.rs do to the WebSocket writer.
use tws_rust.Prelude.{
  ℕ, length, List, [], ◌∷◌, ◌++◌, some, true, false, ◌≡◌, refl, ap, ◌∙◌, if_false, by_if, arith,
}
use tws_rust.Text.Bytes.{Bytes, bytes_key}
use tws_rust.Map.{contains_key, modify}
use tws_rust.Util.SharedStream.{pushed, popped, press, SharedState}
use tws_rust.Util.SharedStream
use tws_rust.Util.SharedStream.Fifo.{press_queue, press_finished, relieve_finished}
use tws_rust.Util.Throttling.{ThrottlingHandler}
use tws_rust.Protocol.Packet.{closed}
use tws_rust.Protocol.Data.{data_build, udp_data_build}
use tws_rust.Protocol.State.{connect_state_build}
use tws_rust.Session.Connection
use tws_rust.Session.Message.{OwnedMessage, text, binary, get_size}
use tws_rust.Session.ReadThrottle.{read_throttling, Core}
use tws_rust.Session.Service.{
  Session, feed_ws, poll_ws, close_ws, close_conn, with_connections, drop_connection, forward_tcp,
  forward_udp,
}

-- A message that is fed to an open writer stands last in its queue.
pub queue-feed_ws :
    (now : ℕ) (msg : OwnedMessage) (s : Session)
    → s.writer.finished ≡ false
    → (feed_ws now msg s).writer.queue ≡ s.writer.queue ++ msg ∷ []
unfolding feed_ws SharedStream.feed
queue-feed_ws now msg s live =
    let w = record s.writer { handler = some s.core } in
    ap (λ (x : SharedStream.SharedState OwnedMessage _). x.queue)
      (if_false s.writer.finished _ _ live)
    ∙ press_queue get_size (read_throttling now) now (pushed msg w)

-- Feeding and polling do not close the writer.
pub finished-feed_ws :
    (now : ℕ) (msg : OwnedMessage) (s : Session)
    → (feed_ws now msg s).writer.finished ≡ s.writer.finished
unfolding feed_ws SharedStream.feed
finished-feed_ws now msg s =
    let w = record s.writer { handler = some s.core } in
    by_if (λ (x : SharedState OwnedMessage Core). x.finished ≡ s.writer.finished) s.writer.finished
      refl (press_finished get_size (read_throttling now) now (pushed msg w))

finished-poll :
    {I S : Type 0} (size : I → ℕ) (h : ThrottlingHandler S) (now current : ℕ) (s : SharedState I S)
    (q : List I)
    → s.queue ≡ q
    → (SharedStream.poll size h now current s).1.finished ≡ s.finished
unfolding SharedStream.poll
finished-poll size h now current s [] e = ground arith
finished-poll size h now current s (item ∷ rest) e =
    ground (arith, relieve_finished size h (popped size h now current item rest s))

pub finished-poll_ws :
    (now current : ℕ) (s : Session) → (poll_ws now current s).1.writer.finished ≡ s.writer.finished
unfolding poll_ws
finished-poll_ws now current s =
    finished-poll get_size (read_throttling now) now current
      (record s.writer { handler = some s.core }) s.writer.queue refl

pub finished-close_ws : (s : Session) → (close_ws s).writer.finished ≡ true
unfolding close_ws SharedStream.close
finished-close_ws s = ground arith

pub finished-close_conn :
    (now : ℕ) (conn_id : Bytes) (s : Session)
    → (close_conn now conn_id s).writer.finished ≡ s.writer.finished
unfolding close_conn drop_connection
finished-close_conn now conn_id s =
    by_if (λ (t : Session). t.writer.finished ≡ s.writer.finished)
      (contains_key conn_id s.core.connections)
      (finished-feed_ws now (text (connect_state_build conn_id closed)) (drop_connection conn_id s))
      refl

pub finished-forward_tcp :
    (now : ℕ) (conn_id bytes : Bytes) (s : Session)
    → (forward_tcp now conn_id bytes s).writer.finished ≡ s.writer.finished
unfolding forward_tcp
finished-forward_tcp now conn_id bytes s =
    finished-feed_ws now (binary (data_build conn_id bytes)) (
      with_connections (modify conn_id (Connection.on_read now (length bytes)) s.core.connections)
        s)

pub finished-forward_udp :
    (now : ℕ) (conn_id bytes : Bytes) (s : Session)
    → (forward_udp now conn_id bytes s).writer.finished ≡ s.writer.finished
unfolding forward_udp
finished-forward_udp now conn_id bytes s =
    finished-feed_ws now (binary (udp_data_build conn_id bytes)) s
