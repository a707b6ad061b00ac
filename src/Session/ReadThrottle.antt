-- ===== src/Session/ReadThrottle.antt =====
-- `TwsTcpReadThrottler` of src/protocol/shared.rs, over the state of a session.
use tws_rust.Prelude.{
  ℕ, ◌+◌, ◌-◌, ◌%◌, ◌^◌, ◌≤◌, List, [], ◌∷◌, Bool, true, false, by_if, if◌then◌else◌, ltb, leb,
  ◌==◌, Option, none, some, ◌≡◌, refl, ap, ◌∙◌, arith,
}
use mathlib.Core.List.{Permᴰ}
use mathlib.Core.List.Permᴰ
use tws_rust.Text.Bytes.{Bytes}
use tws_rust.Net.Addr.{SocketAddr}
use tws_rust.Text.Bytes.{bytes_key}
use tws_rust.Map.{Map, get, insert, modify}
use tws_rust.Util.Speedometer.{speed}
use tws_rust.Util.Throttling.{ThrottlingHandler, IsLawful}
use tws_rust.Udp.Handle.{Handle}
use tws_rust.Udp.Handle
use tws_rust.Session.Connection.{Connection}
use tws_rust.Session.Connection

-- A UDP connection refers to the handle of a socket: on the client all of them share one. `addr` is the
-- client's address, on the client.
pub record UdpConnection : Type 0 where
  pub handle : ℕ
  pub addr : Option SocketAddr

-- The handles of the sockets, by number.
unfoldable pub modify_handle : ℕ → (Handle → Handle) → List (ℕ × Handle) → List (ℕ × Handle)
modify_handle n f [] = []
modify_handle n f ((m, h) ∷ rest) =
    if m == n then (m, f h) ∷ rest else (m, h) ∷ modify_handle n f rest

-- The part of a session's state that the throttler reads and writes, with its own `pause_state`.
pub record Core : Type 0 where
  pub paused : Bool
  pub connections : Map Bytes Connection
  pub udp_connections : Map Bytes UdpConnection
  pub handles : List (ℕ × Handle)
  pub pause_state : Map Bytes Bool

-- `for (_, v) in udp_connections { v.get_handle().borrow_mut()… }`
unfoldable pub each_handle :
    (Handle → Handle) → Map Bytes UdpConnection → List (ℕ × Handle) → List (ℕ × Handle)
unfolding modify_handle
each_handle f [] handles = handles
each_handle f ((id, u) ∷ rest) handles = each_handle f rest (modify_handle u.handle f handles)

-- The identifiers of the connections with their speeds.
unfoldable pub speeds : ℕ → Map Bytes Connection → List (Bytes × ℕ)
speeds now [] = []
speeds now ((id, c) ∷ rest) = (id, speed now c.speedometer) ∷ speeds now rest

-- `sort_by(|s1, s2| s1.cmp(s2))`: stable, the slowest first.
insert_by_speed : Bytes × ℕ → List (Bytes × ℕ) → List (Bytes × ℕ)
insert_by_speed x [] = x ∷ []
insert_by_speed (id, s) ((j, t) ∷ rest) =
    if leb s t then (id, s) ∷ (j, t) ∷ rest else (j, t) ∷ insert_by_speed (id, s) rest

unfoldable pub sort_by_speed : List (Bytes × ℕ) → List (Bytes × ℕ)
unfolding insert_by_speed
sort_by_speed [] = []
sort_by_speed (x ∷ rest) = insert_by_speed x (sort_by_speed rest)

-- A sum of `u64`s.
unfoldable pub sum_speeds : List (Bytes × ℕ) → ℕ
sum_speeds [] = 0
sum_speeds ((id, s) ∷ rest) = (s + sum_speeds rest) % 2 ^ 64

-- `pause_state.get(c).unwrap_or(&false)`
abbrev pub is_marked : Bytes → Map Bytes Bool → Bool
is_marked id m = elim (get id m) [ none ↦ false | some b ↦ b ]

-- The last loop of `pause`; `sum -= s` wraps around.
unfoldable pub pause_loop : ℕ → ℕ → List (Bytes × ℕ) → Core → Core
pause_loop max_speed sum [] core = core
pause_loop max_speed sum ((id, s) ∷ rest) core =
    let sum' = (sum + 2 ^ 64 - s) % 2 ^ 64 in
    let core' = record core {
      connections = modify id Connection.pause core.connections;
      pause_state = insert id true core.pause_state;
    } in
    let go_on = pause_loop max_speed sum' rest core' in
    let skip = pause_loop max_speed sum rest core in
    if is_marked id core.pause_state then (if ltb sum' max_speed then core' else go_on) else skip

unfoldable pub pause : ℕ → ℕ → Core → Core
unfolding pause_loop each_handle
pause now max_speed core =
    let it = sort_by_speed (speeds now core.connections) in
    pause_loop max_speed (sum_speeds it) it (record core {
      paused = true;
      handles = each_handle Handle.pause core.udp_connections core.handles;
    })

-- `for (c, s) in &pause_state { if *s { connections.get_mut(c)… } }`
unfoldable pub resume_marked : Map Bytes Bool → Map Bytes Connection → Map Bytes Connection
resume_marked [] connections = connections
resume_marked ((id, marked) ∷ rest) connections =
    resume_marked rest (if marked then modify id Connection.resume connections else connections)

unfoldable pub resume : Core → Core
unfolding resume_marked each_handle
resume core = record core {
  paused = false;
  handles = each_handle Handle.resume core.udp_connections core.handles;
  connections = resume_marked core.pause_state core.connections;
  pause_state = [];
}

abbrev pub read_throttling : ℕ → ThrottlingHandler Core
read_throttling now = record {
  pause = pause now;
  resume = resume;
  is_paused = λ core. core.paused;
  allow_pause_multiple_times = true;
}

pause_loop_unmarked :
    (max_speed sum : ℕ) (it : List (Bytes × ℕ)) (core : Core)
    → core.pause_state ≡ []
    → pause_loop max_speed sum it core ≡ core
unfolding pause_loop get
pause_loop_unmarked max_speed sum [] core e = refl
pause_loop_unmarked max_speed sum ((id, s) ∷ rest) core e =
    ground (arith, pause_loop_unmarked max_speed sum rest core e)

pause_loop_paused :
    (max_speed sum : ℕ) (it : List (Bytes × ℕ)) (core : Core)
    → (pause_loop max_speed sum it core).paused ≡ core.paused
unfolding pause_loop
pause_loop_paused max_speed sum [] core = refl
pause_loop_paused max_speed sum ((id, s) ∷ rest) core = ground (
  arith,
  pause_loop_paused max_speed sum rest core,
  pause_loop_paused max_speed ((sum + 2 ^ 64 - s) % 2 ^ 64) rest (record core {
    connections = modify id Connection.pause core.connections;
    pause_state = insert id true core.pause_state;
  }),
)

pub read_throttling-IsLawful : (now : ℕ) → IsLawful (read_throttling now)
unfolding pause resume
read_throttling-IsLawful now = record {
  paused = λ max_speed core. pause_loop_paused max_speed _ _ _;
  resumed = λ core. refl;
}

-- What the writer may ask of the throttler.
pub data Call : Type 0 where
  pauses : ℕ → ℕ → Call
  resumes : Call

unfoldable pub run : List Call → Core → Core
unfolding pause resume
run [] core = core
run (pauses now max_speed ∷ cs) core = run cs (pause now max_speed core)
run (resumes ∷ cs) core = run cs (resume core)

-- The throttler of a new session never pauses a TCP connection: it only pauses those that it has marked
-- before, and marks only those that it pauses. So the connections are left as they are, whatever is asked.
pub run_idle :
    (cs : List Call) (core : Core)
    → core.pause_state ≡ []
    → ((run cs core).connections ≡ core.connections) × ((run cs core).pause_state ≡ [])
unfolding run pause resume resume_marked
run_idle [] core e = (refl, e)
run_idle (pauses now max_speed ∷ cs) core e =
    let it = sort_by_speed (speeds now core.connections) in
    let flagged = record core {
      paused = true;
      handles = each_handle Handle.pause core.udp_connections core.handles;
    } in
    let idle : pause now max_speed core ≡ flagged =
      pause_loop_unmarked max_speed (sum_speeds it) it flagged e in
    let (same, unmarked) =
      run_idle cs (pause now max_speed core) (ap (λ c. c.pause_state) idle ∙ e) in
    (same ∙ ap (λ c. c.connections) idle, unmarked)
run_idle (resumes ∷ cs) core e =
    let untouched : (resume core).connections ≡ core.connections =
      ap (λ m. resume_marked m core.connections) e in
    let (same, unmarked) = run_idle cs (resume core) refl in (same ∙ untouched, unmarked)

-- The list is ordered by speed, the slowest connection first.
abbrev pub SlowestFirst : List (Bytes × ℕ) → Type 0
SlowestFirst [] = Unit {0}
SlowestFirst (x ∷ []) = Unit {0}
SlowestFirst (x ∷ y ∷ rest) = (x.1 ≤ y.1) × SlowestFirst (y ∷ rest)

insert_by_speed-SlowestFirst :
    (x : Bytes × ℕ) (l : List (Bytes × ℕ)) → SlowestFirst l → SlowestFirst (insert_by_speed x l)
unfolding insert_by_speed
insert_by_speed-SlowestFirst (id, s) [] h = tt
insert_by_speed-SlowestFirst (id, s) ((j, t) ∷ []) h = ground arith
insert_by_speed-SlowestFirst (id, s) ((j, t) ∷ (k, u) ∷ rest) h =
    ground (arith, insert_by_speed-SlowestFirst (id, s) ((k, u) ∷ rest) h.1)

insert_by_speed-permutes :
    (x : Bytes × ℕ) (l : List (Bytes × ℕ)) → Permᴰ (x ∷ l) (insert_by_speed x l)
unfolding insert_by_speed
insert_by_speed-permutes (id, s) [] = Permᴰ.refl ((id, s) ∷ [])
insert_by_speed-permutes (id, s) ((j, t) ∷ rest) =
    by_if (λ (l : List (Bytes × ℕ)). Permᴰ ((id, s) ∷ (j, t) ∷ rest) l) (leb s t)
      (Permᴰ.refl ((id, s) ∷ (j, t) ∷ rest))
      (Permᴰ.trans (Permᴰ.swap refl refl) (Permᴰ.cons refl (insert_by_speed-permutes (id, s) rest)))

sort_by_speed-permutes : (l : List (Bytes × ℕ)) → Permᴰ l (sort_by_speed l)
unfolding sort_by_speed
sort_by_speed-permutes [] = Permᴰ.nil
sort_by_speed-permutes (x ∷ rest) =
    Permᴰ.trans (Permᴰ.cons refl (sort_by_speed-permutes rest))
      (insert_by_speed-permutes x (sort_by_speed rest))

sorted : (l : List (Bytes × ℕ)) → SlowestFirst (sort_by_speed l)
unfolding sort_by_speed
sorted [] = tt
sorted (x ∷ rest) = insert_by_speed-SlowestFirst x (sort_by_speed rest) (sorted rest)

-- Where `pause` means to begin with the fastest connections, the order in which it walks all of them begins
-- with the slowest.
pub sort_by_speed-SlowestFirst :
    (l : List (Bytes × ℕ)) → SlowestFirst (sort_by_speed l) × Permᴰ l (sort_by_speed l)
sort_by_speed-SlowestFirst l = (sorted l, sort_by_speed-permutes l)
