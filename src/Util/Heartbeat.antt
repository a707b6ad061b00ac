-- ===== src/Util/Heartbeat.antt =====
-- `HeartbeatAgent` of src/protocol/util.rs. The timer and the peer's answers are a list of events.
use tws_rust.Prelude.{
  ℕ, suc, ◌+◌, List, [], ◌∷◌, ◌++◌, Bool, true, false, not, if◌then◌else◌, ◌≡◌, refl, arith, ◌↔◌,
  ap, sym, append_assoc, ◌∙◌,
}

pub data Beat : Type 0 where
  tick pong : Beat

-- What the agent does to the writer: `pings` are fed, and it may be closed. `timed_out` says that the
-- future has ended with an error.
pub record Agent : Type 0 where
  pub heartbeat_received : Bool
  pub pings : ℕ
  pub timed_out : Bool

unfoldable pub new : Agent
new = record { heartbeat_received = true; pings = 0; timed_out = false }

unfoldable pub set_heartbeat_received : Agent → Agent
set_heartbeat_received a = record a { heartbeat_received = true }

-- The body of the loop over the interval. An error ends the loop, and closes the writer.
unfoldable pub on_tick : Agent → Agent
on_tick a =
    if not a.heartbeat_received
    then record a { timed_out = true }
    else record a { pings = a.pings + 1; heartbeat_received = false }

unfoldable pub on_beat : Beat → Agent → Agent
unfolding on_tick set_heartbeat_received
on_beat tick a = if a.timed_out then a else on_tick a
on_beat pong a = set_heartbeat_received a

unfoldable pub run : List Beat → Agent → Agent
unfolding on_beat
run [] a = a
run (b ∷ bs) a = run bs (on_beat b a)

-- An answer comes between any two ticks: the first argument says whether one has come since the last tick.
abbrev pub answered : Bool → List Beat → Bool
answered since [] = true
answered since (pong ∷ bs) = answered true bs
answered true (tick ∷ bs) = answered false bs
answered false (tick ∷ bs) = false

abbrev pub ticks : List Beat → ℕ
ticks [] = 0
ticks (tick ∷ bs) = suc (ticks bs)
ticks (pong ∷ bs) = ticks bs

-- Once timed out, an agent stays so.
pub run_over : (bs : List Beat) (a : Agent) → a.timed_out ≡ true → (run bs a).timed_out ≡ true
unfolding run
run_over [] a h = h
run_over (tick ∷ bs) a h = run_over bs _ (ground arith)
run_over (pong ∷ bs) a h = run_over bs _ h

run_from :
    (bs : List Beat) (since : Bool) (n : ℕ)
    → (run bs (record { heartbeat_received = since; pings = n; timed_out = false })).timed_out
      ≡ not (answered since bs)
unfolding run
run_from [] since n = refl
run_from (pong ∷ bs) since n = run_from bs true n
run_from (tick ∷ bs) true n = run_from bs false (n + 1)
run_from (tick ∷ bs) false n = run_over bs _ refl

pings_from :
    (bs : List Beat) (since : Bool) (n : ℕ)
    → answered since bs ≡ true
    → (run bs (record { heartbeat_received = since; pings = n; timed_out = false })).pings
      ≡ n + ticks bs
unfolding run
pings_from [] since n h = omega arith
pings_from (pong ∷ bs) since n h = pings_from bs true n h
pings_from (tick ∷ bs) true n h = pings_from bs false (n + 1) h ∙ omega arith
pings_from (tick ∷ bs) false n h = cc

behind : Bool → List Beat
behind true = []
behind false = tick ∷ []

missed :
    (bs : List Beat) (since : Bool)
    → answered since bs ≡ false
    → (pre : List Beat) × (post : List Beat) × (behind since ++ bs ≡ pre ++ tick ∷ tick ∷ post)
unfolding behind
missed [] since h = cc
missed (pong ∷ bs) since h =
    let (pre, post, e) = missed bs true h in
    (
      behind since ++ pong ∷ pre,
      post,
      ap (λ r. behind since ++ pong ∷ r) e ∙ sym (append_assoc (behind since) (pong ∷ pre) _),
    )
missed (tick ∷ bs) true h = missed bs false h
missed (tick ∷ bs) false h = ([], bs, refl)

unanswered :
    (pre post : List Beat) (since : Bool) → answered since (pre ++ tick ∷ tick ∷ post) ≡ false
unanswered [] post true = refl
unanswered [] post false = refl
unanswered (pong ∷ pre) post since = unanswered pre post true
unanswered (tick ∷ pre) post true = unanswered pre post false
unanswered (tick ∷ pre) post false = refl

-- A session times out exactly if two ticks come in a row, with no answer between them.
pub run_lem :
    (bs : List Beat)
    → ((run bs new).timed_out ≡ true)
      ↔ ((pre : List Beat) × (post : List Beat) × (bs ≡ pre ++ tick ∷ tick ∷ post))
unfolding new behind
run_lem bs =
    let outcome = run_from bs true 0 in
    (
      (λ over. missed bs true (ground arith)),
      (λ (pre, post, e). outcome ∙ ap not (ap (answered true) e ∙ unanswered pre post true)),
    )

-- As long as every ping is answered in time, each tick sends one ping.
pub pings-run : (bs : List Beat) → answered true bs ≡ true → (run bs new).pings ≡ ticks bs
unfolding new
pings-run bs h = pings_from bs true 0 h ∙ omega arith
