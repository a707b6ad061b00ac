-- ===== src/Tests/Util.antt =====
-- The parts of src/protocol/util.rs on concrete inputs.
use tws_rust.Prelude.{
  none, ℕ, ◌+◌, ◌≤◌, List, [], ◌∷◌, ◌++◌, true, false, some, ◌≡◌, refl, ◌⊎◌, length, leb,
}
use tws_rust.Util.Speedometer
use tws_rust.Util.Speedometer.{Feed}
use tws_rust.Util.Throttling.{
  Poll, ready, ended, not_ready, failed, ThrottlingHandler, ThrottledState, stream_throttler,
  stream_throttler-IsLawful, first_poller,
}
use tws_rust.Util.Throttling
use tws_rust.Util.SharedStream.{
  SharedState, Event, feeds, polls, closes, clones, drops, run_events, run, set_throttling_handler,
  queue_max_length,
}
use tws_rust.Util.SharedStream
use tws_rust.Util.SharedStream.Fifo.{fed, run_events_fifo}
use tws_rust.Util.SharedStream.Pressure.{back_pressure}
use tws_rust.Util.SharedStream.Wake.{feed_wakes, told, pollers}
use tws_rust.Util.Alternating

abbrev fed_twice : List Feed
fed_twice = (2_000_000_000, 700) ∷ (7_000_000_000, 300) ∷ []

-- A shared writer of byte strings whose source is a throttled stream.
abbrev Item : Type 0
Item = List ℕ

abbrev opened : SharedState Item ThrottledState
unfolding SharedStream.new run set_throttling_handler Throttling.new
opened = run (set_throttling_handler Throttling.new (SharedStream.new Item ThrottledState 0))

abbrev a_item : Item
a_item = 1 ∷ 2 ∷ []

abbrev b_item : Item
b_item = 3 ∷ []

abbrev busy : List (Event Item)
busy = feeds 5 a_item ∷ polls 6 1 ∷ clones ∷ feeds 7 b_item ∷ drops ∷ []

abbrev after_busy : List Item × SharedState Item ThrottledState
after_busy = run_events length stream_throttler busy opened

fifo_example :
    (opened.finished ≡ false) × (after_busy.0 ++ after_busy.1.queue ≡ opened.queue ++ fed busy)
unfolding opened run_events
fifo_example = run_events_fifo length stream_throttler busy opened refl

abbrev over : SharedState Item ThrottledState
unfolding opened
over = record opened { finished = true }

back_pressure_example :
    let s =
      (run_events length stream_throttler busy
        (run (set_throttling_handler Throttling.new (SharedStream.new Item ThrottledState 0)))).1 in
    (s.finished ≡ true)
    ⊎ ((k : ThrottledState) × (s.handler ≡ some k)
        × (k.paused ≡ leb queue_max_length (length s.queue)))
unfolding Throttling.new
back_pressure_example =
    back_pressure length stream_throttler stream_throttler-IsLawful Throttling.new busy 0 refl

abbrev waiting : List (Event Item)
waiting = polls 1 1 ∷ feeds 2 a_item ∷ []

wakeup_example :
    let s =
      (run_events length stream_throttler waiting
        (run (SharedStream.new Item ThrottledState 0))).1 in
    ((SharedStream.feed length stream_throttler 3 b_item s).queue ≡ s.queue ++ b_item ∷ [])
    × ((SharedStream.feed length stream_throttler 3 b_item s).notified
        ≡ s.notified ++ told (first_poller none (pollers waiting)))
    × ((SharedStream.close s).queue ≡ [])
    × ((SharedStream.close s).notified ≡ s.notified ++ told (first_poller none (pollers waiting)))
unfolding SharedStream.new run run_events
wakeup_example = feed_wakes length stream_throttler waiting 0 3 b_item refl

abbrev shared_twice : SharedState Item ThrottledState
unfolding opened
shared_twice = record opened { writers = 2 }

-- A stream that counts.
abbrev count_up : ℕ → Poll ℕ × ℕ
count_up n = (ready n, n + 1)

alternating_example :
    (m : ℕ) × (Alternating.own (Alternating.poll_times count_up 4 (Alternating.new 7)).0
      ≡ (Alternating.inner_times count_up m 7).0)
    × ((Alternating.poll_times count_up 4 (Alternating.new 7)).1.stream
        ≡ (Alternating.inner_times count_up m 7).1)
    × (4 ≤ m + m)
alternating_example = Alternating.poll_times_lem count_up 4 7

throttled_example :
    let (s, stream') = Throttling.throttled_polls count_up (4 ∷ 5 ∷ []) Throttling.new 7 in
    let (r, (s', stream'')) = Throttling.throttled_poll count_up 5 (Throttling.pause 0 s) stream' in
    (r ≡ not_ready)
    × (stream'' ≡ stream')
    × (s'.notified ≡ [])
    × ((Throttling.resume s').notified ≡ 4 ∷ [])
    × ((Throttling.throttled_poll count_up 5 (Throttling.resume s') stream'').0
        ≡ (count_up stream').0)
throttled_example = Throttling.throttled_pause_resume count_up 4 5 0 (5 ∷ []) 7
