-- ===== src/Util/SharedStream.antt =====
-- `SharedWriter` and `SharedStream` of src/protocol/util.rs: a queue between the parts of the program that
-- write to a sink and the task that forwards the queue to it.
pub mod Fifo
pub mod Pressure
pub mod Wake
pub mod Keeps
use tws_rust.Prelude.{
  ℕ, suc, ◌+◌, ◌-◌, List, [], ◌∷◌, ◌++◌, Bool, true, false, not, ◌||◌, if◌then◌else◌, ltb, leb,
  length, Option, none, some, ◌≡◌, refl,
}
use tws_rust.Util.Speedometer.{Speedometer, feed_counter, speed}
use tws_rust.Util.Speedometer
use tws_rust.Util.Throttling.{Poll, ready, ended, not_ready, failed, ThrottlingHandler, notify}

abbrev pub queue_max_length : ℕ
queue_max_length = 4

-- `writers` and `streams` count the `SharedWriter`s and `SharedStream`s that hold the shared state: the
-- two together are its reference count. `notified` are the tasks that have been notified, oldest first.
pub record SharedState (I S : Type 0) : Type 0 where
  pub queue : List I
  pub finished : Bool
  pub handler : Option S
  pub speedometer : Speedometer
  pub task : Option ℕ
  pub notified : List ℕ
  pub writers : ℕ
  pub streams : ℕ

-- `SharedWriter::new`: one writer, and no task is known yet.
unfoldable pub new : (I S : Type 0) → ℕ → SharedState I S
unfolding Speedometer.new
new I S now = record {
  queue = [];
  finished = false;
  handler = none;
  speedometer = Speedometer.new now;
  task = none;
  notified = [];
  writers = 1;
  streams = 0;
}

module _ {I S : Type 0} where
  -- `run` makes the stream and hands it to the event loop.
  unfoldable pub run : SharedState I S → SharedState I S
  run s = record s { streams = s.streams + 1 }

  unfoldable pub set_throttling_handler : S → SharedState I S → SharedState I S
  set_throttling_handler h s = record s { handler = some h }

  unfoldable pub close : SharedState I S → SharedState I S
  unfolding notify
  close s =
      if s.finished
      then s
      else record s { finished = true; queue = []; notified = notify s.task s.notified }

  unfoldable pub clone : SharedState I S → SharedState I S
  clone s = record s { writers = s.writers + 1 }

  -- `Drop`: the count still includes the writer that is dropped.
  unfoldable pub drop_writer : SharedState I S → SharedState I S
  unfolding close
  drop_writer s =
      let closed = if leb (s.writers + s.streams) 2 then close s else s in
      record closed { writers = closed.writers - 1 }

  -- The forwarding task has dropped its stream.
  unfoldable pub drop_stream : SharedState I S → SharedState I S
  drop_stream s = record s { streams = s.streams - 1 }

-- The stream keeps the task that polled it first.
abbrev pub first_task : Option ℕ → ℕ → Option ℕ
first_task none current = some current
first_task (some t) current = some t

-- An item has been put at the end of the queue, and the task notified.
abbrev pub pushed : {I S : Type 0} → I → SharedState I S → SharedState I S
pushed item s = record s { queue = s.queue ++ item ∷ []; notified = notify s.task s.notified }

-- The item that a poll hands to the sink.
abbrev pub emitted : {I : Type 0} → Poll I → List I
emitted (ready item) = item ∷ []
emitted ended = []
emitted not_ready = []
emitted failed = []

-- What may happen to the shared state, in any order: `feeds now item`, `polls now task`, …
pub data Event (I : Type 0) : Type 0 where
  feeds : ℕ → I → Event I
  polls : ℕ → ℕ → Event I
  closes clones drops : Event I

module _ {I S : Type 0} (get_size : I → ℕ) (h : ThrottlingHandler S) where
  -- The end of `poll`: resume the sources once the queue is short again.
  unfoldable pub relieve : SharedState I S → SharedState I S
  relieve s =
      if ltb (length s.queue) queue_max_length
      then (elim s.handler [
        | none ↦ s
        | some k ↦ if h.is_paused k then record s { handler = some (h.resume k) } else s
      ])
      else s

  -- The first item has been taken out of the queue.
  abbrev pub popped : ℕ → ℕ → I → List I → SharedState I S → SharedState I S
  popped now current item rest s = record s {
    task = first_task s.task current;
    queue = rest;
    speedometer = feed_counter now (get_size item) s.speedometer;
  }

  -- `poll` by the task `current` at the instant `now`.
  unfoldable pub poll : ℕ → ℕ → SharedState I S → Poll I × SharedState I S
  unfolding relieve
  poll now current s =
      let known = record s { task = first_task s.task current } in
      if s.finished then (ended, known) else (elim s.queue [
        | [] ↦ (not_ready, known)
        | item ∷ rest ↦ (ready item, relieve (popped now current item rest s))
      ])

  -- The end of `feed`: pause the sources while the queue is long.
  unfoldable pub press : ℕ → SharedState I S → SharedState I S
  press now s =
      if leb queue_max_length (length s.queue)
      then (elim s.handler [
        | none ↦ s
        | some k ↦
            if not (h.is_paused k) || h.allow_pause_multiple_times
            then record s { handler = some (h.pause (speed now s.speedometer) k) }
            else s
      ])
      else s

  unfoldable pub feed : ℕ → I → SharedState I S → SharedState I S
  unfolding press notify
  feed now item s = if s.finished then s else press now (pushed item s)

  -- One event, with the items that it emits.
  unfoldable pub step : Event I → SharedState I S → List I × SharedState I S
  unfolding feed poll close clone drop_writer
  step (feeds now item) s = ([], feed now item s)
  step (polls now current) s = let (r, s') = poll now current s in (emitted r, s')
  step closes s = ([], close s)
  step clones s = ([], clone s)
  step drops s = ([], drop_writer s)

  unfoldable pub run_events : List (Event I) → SharedState I S → List I × SharedState I S
  unfolding step
  run_events [] s = ([], s)
  run_events (e ∷ es) s =
      let (out, s') = step e s in let (outs, s'') = run_events es s' in (out ++ outs, s'')
