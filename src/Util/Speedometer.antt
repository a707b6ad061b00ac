-- ===== src/Util/Speedometer.antt =====
-- `Speedometer` of src/protocol/util.rs. An instant is a number of nanoseconds; the clock's reading is an
-- argument. The clock does not run backwards, so `duration_since` is a subtraction.
use tws_rust.Prelude.{
  ◌⊎◌, ℕ, ◌+◌, ◌-◌, ◌*◌, ◌/◌, ◌%◌, ◌^◌, ◌<◌, List, [], ◌∷◌, ◌++◌, if◌then◌else◌, leb, ◌==◌, ◌≡◌,
  All,
}

pub record Speedometer : Type 0 where
  pub begin_instant : ℕ
  pub counter : ℕ

abbrev pub second : ℕ
second = 1_000_000_000

unfoldable pub new : ℕ → Speedometer
new now = record { begin_instant = now; counter = 0 }

-- The counter is a `u64`.
unfoldable pub feed_counter : ℕ → ℕ → Speedometer → Speedometer
feed_counter now count m =
    if leb (5 * second) (now - m.begin_instant)
    then record { begin_instant = now; counter = count % 2 ^ 64 }
    else record m { counter = (m.counter + count) % 2 ^ 64 }

unfoldable pub speed : ℕ → Speedometer → ℕ
speed now m =
    let duration = (now - m.begin_instant) / second in
    if duration == 0 then 0 else m.counter / duration

-- What was fed, oldest first: the instant and the count.
abbrev pub Feed : Type 0
Feed = ℕ × ℕ

unfoldable pub feed_all : List Feed → Speedometer → Speedometer
feed_all [] m = m
feed_all ((now, count) ∷ rest) m = feed_all rest (feed_counter now count m)

abbrev pub total : List Feed → ℕ
total [] = 0
total ((now, count) ∷ rest) = count + total rest

-- A window begins with the meter, or with the first of its feeds.
abbrev pub BeginsAt : ℕ → ℕ → List Feed → List Feed → Type 0
BeginsAt start begin older recent =
    ((begin ≡ start) × (older ≡ []))
    ⊎ ((count : ℕ) × (rest : List Feed) × (recent ≡ (begin, count) ∷ rest))

-- The window of a meter: what was fed since its begin, all within five seconds of it.
pub record Window (start : ℕ) (fed : List Feed) (m : Speedometer) : Type 0 where
  pub older : List Feed
  pub recent : List Feed
  pub begun : BeginsAt start m.begin_instant older recent
  pub whole : older ++ recent ≡ fed
  pub sum : total recent ≡ m.counter
  pub within : All (λ f. f.0 - m.begin_instant < 5 * second) recent
