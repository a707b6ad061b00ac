-- ===== src/Session/Connection.antt =====
-- `TwsConnection` of src/protocol/shared.rs: a TCP connection with its writer and the throttler of its
-- reading part.
use tws_rust.Prelude.{
  ℕ, zero, suc, ◌+◌, ◌-◌, List, [], ◌∷◌, false, if◌then◌else◌, ltb, ◌==◌, ◌≡◌, refl, arith,
}
use tws_rust.Text.Bytes.{Bytes}
use tws_rust.Util.Speedometer.{Speedometer}
use tws_rust.Util.Speedometer
use tws_rust.Util.Throttling.{ThrottledState}
use tws_rust.Util.Throttling
use tws_rust.Util.SharedStream.{SharedState}
use tws_rust.Util.SharedStream
use tws_rust.Session.WriteThrottle.{WriteThrottle}

pub record Connection : Type 0 where
  pub conn_id : Bytes
  pub writer : SharedState Bytes WriteThrottle
  pub read_throttler : ThrottledState
  pub speedometer : Speedometer
  pub read_pause_counter : ℕ

-- `create`, and the record that the callers make of its result: the writer has its handler, and runs.
unfoldable pub create : Bytes → ℕ → Connection
unfolding SharedStream.run SharedStream.set_throttling_handler SharedStream.new Throttling.new
    Speedometer.new
create conn_id now = record {
  conn_id = conn_id;
  writer = SharedStream.run (
      SharedStream.set_throttling_handler
        (record { conn_id = conn_id; paused = false; outbox = [] })
        (SharedStream.new Bytes WriteThrottle now));
  read_throttler = Throttling.new;
  speedometer = Speedometer.new now;
  read_pause_counter = 0;
}

-- `close`, which `Drop` calls too.
unfoldable pub close : Connection → Connection
unfolding SharedStream.close
close c = record c { writer = SharedStream.close c.writer }

unfoldable pub pause : Connection → Connection
unfolding Throttling.pause
pause c = record c {
  read_throttler =
      if c.read_pause_counter == 0 then Throttling.pause 0 c.read_throttler else c.read_throttler;
  read_pause_counter = c.read_pause_counter + 1;
}

unfoldable pub resume : Connection → Connection
unfolding Throttling.resume
resume c = record c {
  read_throttler =
      if c.read_pause_counter == 1 then Throttling.resume c.read_throttler else c.read_throttler;
  read_pause_counter =
      if ltb 0 c.read_pause_counter then c.read_pause_counter - 1 else c.read_pause_counter;
}

-- The reading part has got `n` bytes.
unfoldable pub on_read : ℕ → ℕ → Connection → Connection
unfolding Speedometer.feed_counter
on_read now n c = record c { speedometer = Speedometer.feed_counter now n c.speedometer }

pub data Request : Type 0 where
  pauses resumes : Request

unfoldable pub run : List Request → Connection → Connection
unfolding pause resume
run [] c = c
run (pauses ∷ rs) c = run rs (pause c)
run (resumes ∷ rs) c = run rs (resume c)

-- The number of pauses that have not been resumed; a resume too many is ignored.
abbrev pub level : List Request → ℕ → ℕ
level [] n = n
level (pauses ∷ rs) n = level rs (suc n)
level (resumes ∷ rs) zero = level rs zero
level (resumes ∷ rs) (suc n) = level rs n

level_from :
    (rs : List Request) (n : ℕ) (c : Connection)
    → c.read_pause_counter ≡ n
    → c.read_throttler.paused ≡ ltb 0 n
    → (run rs c).read_throttler.paused ≡ ltb 0 (level rs n)
unfolding run
level_from [] n c e p = p
level_from (pauses ∷ rs) n c e p = level_from rs (suc n) (pause c) (ground arith) (ground arith)
level_from (resumes ∷ rs) zero c e p = level_from rs zero (resume c) (ground arith) (ground arith)
level_from (resumes ∷ rs) (suc n) c e p = level_from rs n (resume c) (ground arith) (ground arith)

-- The reading part of a new connection is paused exactly while some pause has not been resumed, so two
-- parties that pause it independently do not undo each other.
pub run-create :
    (conn_id : Bytes) (now : ℕ) (rs : List Request)
    → (run rs (create conn_id now)).read_throttler.paused ≡ ltb 0 (level rs 0)
unfolding create
run-create conn_id now rs = level_from rs 0 (create conn_id now) refl refl
