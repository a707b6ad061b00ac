-- ===== src/Util/SharedStream/Wake.antt =====
-- Which task a fed item or a closed writer of src/protocol/util.rs notifies.
use tws_rust.Prelude.{
  ◌++◌, ap, append-nil, Option-cases, ℕ, zero, suc, List, [], ◌∷◌, true, false, leb, Option, none,
  some, ◌≡◌, refl, sym, ◌∙◌, inl, inr, arith, if_false,
}
use tws_rust.Util.Throttling.{ThrottlingHandler, notify, first_poller}
use tws_rust.Util.SharedStream.{
  SharedState, new, Event, feeds, polls, closes, clones, drops, run, close, drop_writer, clone,
  popped, pushed, first_task, relieve, poll, press, feed, step, run_events,
}
use tws_rust.Util.SharedStream.Fifo.{press_queue}

-- The tasks that poll in a run, and the task that is to be told.
abbrev pub pollers : {I : Type 0} → List (Event I) → List ℕ
pollers [] = []
pollers (feeds now item ∷ es) = pollers es
pollers (polls now current ∷ es) = current ∷ pollers es
pollers (closes ∷ es) = pollers es
pollers (clones ∷ es) = pollers es
pollers (drops ∷ es) = pollers es

abbrev pub told : Option ℕ → List ℕ
told none = []
told (some t) = t ∷ []

notify-told : (task : Option ℕ) (notified : List ℕ) → notify task notified ≡ notified ++ told task
unfolding notify
notify-told none notified = sym (append-nil notified)
notify-told (some t) notified = refl

first_poller_later :
    (o : Option ℕ) (current : ℕ) (later : List ℕ)
    → first_poller (first_task o current) later ≡ first_poller o (current ∷ later)
first_poller_later none current later = refl
first_poller_later (some t) current later = refl

module _ {I S : Type 0} (get_size : I → ℕ) (h : ThrottlingHandler S) where
  relieve_same :
      (s : SharedState I S)
      → ((relieve get_size h s).task ≡ s.task) × ((relieve get_size h s).notified ≡ s.notified)
  unfolding relieve
  relieve_same s = (ground arith, ground arith)

  press_same :
      (now : ℕ) (s : SharedState I S)
      → ((press get_size h now s).task ≡ s.task) × ((press get_size h now s).notified ≡ s.notified)
  unfolding press
  press_same now s = (ground arith, ground arith)

  feed_task :
      (now : ℕ) (item : I) (s : SharedState I S) → (feed get_size h now item s).task ≡ s.task
  unfolding feed
  feed_task now item s = ground (arith, (press_same now (pushed item s)).0)

  poll_task :
      (now current : ℕ) (s : SharedState I S) (q : List I)
      → s.queue ≡ q
      → (poll get_size h now current s).1.task ≡ first_task s.task current
  unfolding poll
  poll_task now current s [] e = ground arith
  poll_task now current s (item ∷ rest) e =
      ground (arith, (relieve_same (popped get_size h now current item rest s)).0)

  close_task : (s : SharedState I S) → (close s).task ≡ s.task
  unfolding close
  close_task s = ground arith

  drop_writer_task : (s : SharedState I S) → (drop_writer s).task ≡ s.task
  unfolding drop_writer
  drop_writer_task s = ground (arith, close_task s)

  run_events_task :
      (es : List (Event I)) (s : SharedState I S)
      → (run_events get_size h es s).1.task ≡ first_poller s.task (pollers es)
  unfolding run_events step clone
  run_events_task [] s = elim (Option-cases s.task) [ inl e ↦ rw e refl | inr (t, e) ↦ rw e refl ]
  run_events_task (feeds now item ∷ es) s =
      run_events_task es (feed get_size h now item s)
      ∙ ap (λ o. first_poller o (pollers es)) (feed_task now item s)
  run_events_task (polls now current ∷ es) s =
      run_events_task es (poll get_size h now current s).1
      ∙ ap (λ o. first_poller o (pollers es)) (poll_task now current s s.queue refl)
      ∙ first_poller_later s.task current (pollers es)
  run_events_task (closes ∷ es) s =
      run_events_task es (close s) ∙ ap (λ o. first_poller o (pollers es)) (close_task s)
  run_events_task (clones ∷ es) s = run_events_task es (clone s)
  run_events_task (drops ∷ es) s =
      run_events_task es (drop_writer s)
      ∙ ap (λ o. first_poller o (pollers es)) (drop_writer_task s)

  -- Whatever has happened to a new stream, as long as it is not closed: feeding an item puts the item last in the
  -- queue and notifies the task that polled the stream first, and no other; closing it empties the queue and notifies
  -- the same task. If nothing has polled the stream, nobody is notified.
  pub feed_wakes :
      (es : List (Event I)) (start now : ℕ) (item : I)
      → (run_events get_size h es (run (new I S start))).1.finished ≡ false
      → let s = (run_events get_size h es (run (new I S start))).1 in
        ((feed get_size h now item s).queue ≡ s.queue ++ item ∷ [])
        × ((feed get_size h now item s).notified
            ≡ s.notified ++ told (first_poller none (pollers es)))
        × ((close s).queue ≡ [])
        × ((close s).notified ≡ s.notified ++ told (first_poller none (pollers es)))
  unfolding feed close new run
  feed_wakes es start now item live =
      let s = (run_events get_size h es (run (new I S start))).1 in
      let task : s.task ≡ first_poller none (pollers es) =
        run_events_task es (run (new I S start)) in
      let woken : notify s.task s.notified ≡ s.notified ++ told (first_poller none (pollers es)) =
        notify-told s.task s.notified ∙ ap (λ o. s.notified ++ told o) task in
      let fed : feed get_size h now item s ≡ press get_size h now (pushed item s) =
        if_false s.finished _ _ live in
      let closed : close s
          ≡ record s { finished = true; queue = []; notified = notify s.task s.notified } =
        if_false s.finished _ _ live in
      (
        ap (λ (x : SharedState I S). x.queue) fed ∙ press_queue get_size h now (pushed item s),
        ap (λ (x : SharedState I S). x.notified) fed ∙ (press_same now (pushed item s)).1 ∙ woken,
        ap (λ (x : SharedState I S). x.queue) closed,
        ap (λ (x : SharedState I S). x.notified) closed ∙ woken,
      )

  -- `k` writers are dropped.
  pub drop_times : ℕ → SharedState I S → SharedState I S
  drop_times zero s = s
  drop_times (suc k) s = drop_times k (drop_writer s)

  drop_times_closed :
      (k : ℕ) (s : SharedState I S) → s.finished ≡ true → (drop_times k s).finished ≡ true
  unfolding drop_times drop_writer close
  drop_times_closed zero s over = over
  drop_times_closed (suc k) s over = drop_times_closed k (drop_writer s) (ground arith)

  drop_writer_open :
      (n : ℕ) (s : SharedState I S)
      → s.finished ≡ false
      → s.streams ≡ 1
      → s.writers ≡ suc (suc n)
      → ((drop_writer s).finished ≡ false)
        × ((drop_writer s).streams ≡ 1)
        × ((drop_writer s).writers ≡ suc n)
  unfolding drop_writer
  drop_writer_open n s live one many = ground arith

  drop_writer_last :
      (s : SharedState I S)
      → s.finished ≡ false
      → s.streams ≡ 1
      → s.writers ≡ 1
      → (drop_writer s).finished ≡ true
  unfolding drop_writer close
  drop_writer_last s live one last = ground arith

  -- While its stream runs, the shared state is closed by dropping the last of its writers, no earlier.
  pub drop_times_lem :
      (k n : ℕ) (s : SharedState I S)
      → s.finished ≡ false
      → s.streams ≡ 1
      → s.writers ≡ suc n
      → (drop_times k s).finished ≡ leb (suc n) k
  unfolding drop_times
  drop_times_lem zero n s live one many = ground arith
  drop_times_lem (suc k) zero s live one many =
      drop_times_closed k (drop_writer s) (drop_writer_last s live one many) ∙ ground arith
  drop_times_lem (suc k) (suc n) s live one many =
      let (live', one', many') = drop_writer_open n s live one many in
      drop_times_lem k n (drop_writer s) live' one' many' ∙ ground arith
