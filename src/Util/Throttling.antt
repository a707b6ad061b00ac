-- ===== src/Util/Throttling.antt =====
-- The trait `ThrottlingHandler` of src/protocol/util.rs as an interface, and `StreamThrottler` with its
-- `ThrottledStream`.
use tws_rust.Prelude.{
  ℕ, List, [], ◌∷◌, ◌++◌, Bool, true, false, if◌then◌else◌, Option, none, some, ◌≡◌, refl, arith,
}

-- What polling a stream gives: an item, the end (`Ready(None)`), `NotReady`, or an error.
pub data Poll {ℓ} (A : Type ℓ) : Type ℓ where
  ready : A → Poll A
  ended not_ready failed : Poll A

pub record ThrottlingHandler (S : Type 0) : Type 0 where
  pub pause : ℕ → S → S
  pub resume : S → S
  pub is_paused : S → Bool
  pub allow_pause_multiple_times : Bool

-- What a user of a handler relies on.
pub record IsLawful {S : Type 0} (h : ThrottlingHandler S) : Type 0 where
  pub paused : (speed : ℕ) (s : S) → h.is_paused (h.pause speed s) ≡ true
  pub resumed : (s : S) → h.is_paused (h.resume s) ≡ false

-- A task of the event loop is a number, and `notified` are the tasks that have been notified, oldest first.
pub record ThrottledState : Type 0 where
  pub task : Option ℕ
  pub paused : Bool
  pub notified : List ℕ

-- `if let Some(ref task) = *task { task.notify(); }`
unfoldable pub notify : Option ℕ → List ℕ → List ℕ
notify none notified = notified
notify (some t) notified = notified ++ t ∷ []

unfoldable pub new : ThrottledState
new = record { task = none; paused = false; notified = [] }

unfoldable pub pause : ℕ → ThrottledState → ThrottledState
pause max_speed s = record s { paused = true }

unfoldable pub resume : ThrottledState → ThrottledState
unfolding notify
resume s = record s { paused = false; notified = notify s.task s.notified }

abbrev pub stream_throttler : ThrottlingHandler ThrottledState
stream_throttler = record {
  pause = pause;
  resume = resume;
  is_paused = λ s. s.paused;
  allow_pause_multiple_times = false;
}

pub stream_throttler-IsLawful : IsLawful stream_throttler
unfolding pause resume
stream_throttler-IsLawful = record { paused = λ speed s. refl; resumed = λ s. refl }

-- `ThrottledStream::poll` by the task `current`, over a stream with the state `T`.
module _ {A T : Type 0} (inner : T → Poll A × T) where
  first_task : Option ℕ → ℕ → Option ℕ
  first_task none current = some current
  first_task (some t) current = some t

  unfoldable pub throttled_poll : ℕ → ThrottledState → T → Poll A × (ThrottledState × T)
  unfolding first_task
  throttled_poll current s stream =
      let known = record s { task = first_task s.task current } in
      if s.paused
      then (not_ready, (known, stream))
      else let (r, stream') = inner stream in (r, (known, stream'))

-- The task that `notify` is to reach: the first that polled.
abbrev pub first_poller : Option ℕ → List ℕ → Option ℕ
first_poller none [] = none
first_poller none (current ∷ later) = some current
first_poller (some t) polls = some t

-- The polls of some tasks, one after the other.
unfoldable pub throttled_polls :
    {A T : Type 0} → (T → Poll A × T) → List ℕ → ThrottledState → T → ThrottledState × T
unfolding throttled_poll
throttled_polls inner [] s stream = (s, stream)
throttled_polls inner (current ∷ later) s stream =
    let (r, (s', stream')) = throttled_poll inner current s stream in
    throttled_polls inner later s' stream'

throttled_polls_task :
    {A T : Type 0} (inner : T → Poll A × T) (later : List ℕ) (t : ℕ) (s : ThrottledState)
    (stream : T)
    → s.task ≡ some t
    → s.notified ≡ []
    → ((throttled_polls inner later s stream).0.task ≡ some t)
      × ((throttled_polls inner later s stream).0.notified ≡ [])
unfolding throttled_polls throttled_poll
throttled_polls_task inner [] t s stream e quiet = (e, quiet)
throttled_polls_task inner (current ∷ later) t s stream e quiet =
    let step = throttled_poll inner current s stream in
    throttled_polls_task inner later t step.1.0 step.1.1 (ground arith) (ground arith)

-- A stream is polled by some tasks, paused and polled again: this poll gives nothing, and the stream under it is not
-- touched. When it is resumed, the task that polled it first is notified, once, and nobody before; and the next poll
-- is that of the stream under it.
pub throttled_pause_resume :
    {A T : Type 0} (inner : T → Poll A × T) (first current speed : ℕ) (later : List ℕ) (stream : T)
    → let (s, stream') = throttled_polls inner (first ∷ later) new stream in
      let (r, (s', stream'')) = throttled_poll inner current (pause speed s) stream' in
      (r ≡ not_ready)
      × (stream'' ≡ stream')
      × (s'.notified ≡ [])
      × ((resume s').notified ≡ first ∷ [])
      × ((throttled_poll inner current (resume s') stream'').0 ≡ (inner stream').0)
unfolding throttled_polls throttled_poll pause resume new notify
throttled_pause_resume inner first current speed later stream =
    let begun = throttled_poll inner first new stream in
    let (task, quiet) = throttled_polls_task inner later first begun.1.0 begun.1.1 refl refl in
    (refl, refl, quiet, ground (arith, task, quiet), refl)
