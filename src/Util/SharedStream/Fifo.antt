-- ===== src/Util/SharedStream/Fifo.antt =====
-- The queue between `feed` and the sink: first in, first out, until it is closed.
use tws_rust.Prelude.{
  ℕ, zero, suc, List, [], ◌∷◌, ◌++◌, true, false, length, ◌≡◌, refl, sym, ap, ap₂, ◌∙◌, arith,
  append_assoc, append-nil,
}
use tws_rust.Util.Throttling.{ready, ThrottlingHandler}
use tws_rust.Util.SharedStream.{
  SharedState, Event, feeds, polls, closes, clones, drops, close, drop_writer, clone, popped,
  pushed, relieve, poll, press, feed, step, run_events, emitted,
}

-- The items that a list of events feeds.
abbrev pub fed : {I : Type 0} → List (Event I) → List I
fed [] = []
fed (feeds now item ∷ es) = item ∷ fed es
fed (polls now current ∷ es) = fed es
fed (closes ∷ es) = fed es
fed (clones ∷ es) = fed es
fed (drops ∷ es) = fed es

abbrev poll_times : {I : Type 0} → ℕ → ℕ → ℕ → List (Event I)
poll_times zero now current = []
poll_times (suc n) now current = polls now current ∷ poll_times n now current

module _ {I S : Type 0} (get_size : I → ℕ) (h : ThrottlingHandler S) where
  relieve_queue : (s : SharedState I S) → (relieve get_size h s).queue ≡ s.queue
  unfolding relieve
  relieve_queue s = ground arith

  pub press_queue : (now : ℕ) (s : SharedState I S) → (press get_size h now s).queue ≡ s.queue
  unfolding press
  press_queue now s = ground arith

  pub relieve_finished : (s : SharedState I S) → (relieve get_size h s).finished ≡ s.finished
  unfolding relieve
  relieve_finished s = ground arith

  pub press_finished :
      (now : ℕ) (s : SharedState I S) → (press get_size h now s).finished ≡ s.finished
  unfolding press
  press_finished now s = ground arith

  poll_fifo :
      (now current : ℕ) (s : SharedState I S) (q : List I)
      → s.queue ≡ q
      → (poll get_size h now current s).1.finished ≡ false
      → (s.finished ≡ false)
        × (emitted (poll get_size h now current s).0 ++ (poll get_size h now current s).1.queue
            ≡ s.queue)
  unfolding poll
  poll_fifo now current s [] e live = ground arith
  poll_fifo now current s (item ∷ rest) e live = ground (
    arith,
    relieve_queue (popped get_size h now current item rest s),
    relieve_finished (popped get_size h now current item rest s),
  )

  step_fifo :
      (e : Event I) (s : SharedState I S)
      → (step get_size h e s).1.finished ≡ false
      → (s.finished ≡ false)
        × ((step get_size h e s).0 ++ (step get_size h e s).1.queue ≡ s.queue ++ fed (e ∷ []))
  unfolding step feed close clone drop_writer
  step_fifo (feeds now item) s live =
      ground (arith, press_queue now (pushed item s), press_finished now (pushed item s))
  step_fifo (polls now current) s live =
      let (before, same) = poll_fifo now current s s.queue refl live in
      (before, same ∙ sym (append-nil s.queue))
  step_fifo closes s live = ground (arith, append-nil s.queue)
  step_fifo clones s live = ground (arith, append-nil s.queue)
  step_fifo drops s live = ground (arith, append-nil s.queue)

  fed-cons : (e : Event I) (es : List (Event I)) → fed (e ∷ es) ≡ fed (e ∷ []) ++ fed es
  fed-cons (feeds now item) es = refl
  fed-cons (polls now current) es = refl
  fed-cons closes es = refl
  fed-cons clones es = refl
  fed-cons drops es = refl

  -- As long as the stream has not been closed, what has reached the sink and what is still queued are
  -- together, in order, exactly what was queued at first and what has been fed since.
  pub run_events_fifo :
      (es : List (Event I)) (s : SharedState I S)
      → (run_events get_size h es s).1.finished ≡ false
      → (s.finished ≡ false)
        × ((run_events get_size h es s).0 ++ (run_events get_size h es s).1.queue
            ≡ s.queue ++ fed es)
  unfolding run_events
  run_events_fifo [] s live = (live, sym (append-nil s.queue))
  run_events_fifo (e ∷ es) s live =
      let (out, s') = step get_size h e s in
      let (middle, later) = run_events_fifo es s' live in
      let (first, now) = step_fifo e s middle in
      (
        first,
        append_assoc out (run_events get_size h es s').0 (run_events get_size h es s').1.queue
            ∙ ap (λ r. out ++ r) later
            ∙ sym (append_assoc out s'.queue (fed es))
            ∙ ap (λ r. r ++ fed es) now
            ∙ append_assoc s.queue (fed (e ∷ [])) (fed es)
            ∙ ap (λ r. s.queue ++ r) (sym (fed-cons e es)),
      )

  step_closed :
      (e : Event I) (s : SharedState I S)
      → s.finished ≡ true
      → ((step get_size h e s).0 ≡ [])
        × ((step get_size h e s).1.finished ≡ true)
        × ((step get_size h e s).1.queue ≡ s.queue)
  unfolding step feed poll close clone drop_writer
  step_closed (feeds now item) s over = ground arith
  step_closed (polls now current) s over = ground arith
  step_closed closes s over = ground arith
  step_closed clones s over = ground arith
  step_closed drops s over = ground arith

  -- Once closed, a stream stays closed and gives nothing more, whatever is fed.
  pub run_events_closed :
      (es : List (Event I)) (s : SharedState I S)
      → s.finished ≡ true
      → ((run_events get_size h es s).0 ≡ [])
        × ((run_events get_size h es s).1.finished ≡ true)
        × ((run_events get_size h es s).1.queue ≡ s.queue)
  unfolding run_events
  run_events_closed [] s over = (refl, over, refl)
  run_events_closed (e ∷ es) s over =
      let (silent, still, same) = step_closed e s over in
      let (silent', still', same') = run_events_closed es (step get_size h e s).1 still in
      (ap₂ ◌++◌ silent silent', still', same' ∙ same)

  poll_first :
      (now current : ℕ) (item : I) (rest : List I) (s : SharedState I S)
      → s.finished ≡ false
      → s.queue ≡ item ∷ rest
      → ((poll get_size h now current s).0 ≡ ready item)
        × ((poll get_size h now current s).1.finished ≡ false)
        × ((poll get_size h now current s).1.queue ≡ rest)
  unfolding poll
  poll_first now current item rest s live e = ground (
    arith,
    relieve_queue (popped get_size h now current item rest s),
    relieve_finished (popped get_size h now current item rest s),
  )

  -- An open stream is drained: as many polls as there are items queued give all of them, in order.
  poll_times_drain :
      (now current : ℕ) (q : List I) (s : SharedState I S)
      → s.finished ≡ false
      → s.queue ≡ q
      → ((run_events get_size h (poll_times (length q) now current) s).0 ≡ q)
        × ((run_events get_size h (poll_times (length q) now current) s).1.queue ≡ [])
  unfolding run_events step
  poll_times_drain now current [] s live e = (refl, e)
  poll_times_drain now current (item ∷ rest) s live e =
      let (given, live', rest') = poll_first now current item rest s live e in
      let (out, empty) =
        poll_times_drain now current rest (poll get_size h now current s).1 live' rest' in
      (ground (arith, given, out), empty)
