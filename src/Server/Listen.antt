-- ===== src/Server/Listen.antt =====
-- `TwsServer::run` of src/protocol/server.rs: the requests that come in, the handshakes of their WebSockets, which go on
-- at the same time, and the sessions.
use tws_rust.Prelude.{
  ℕ, zero, suc, ◌+◌, List, [], ◌∷◌, ◌++◌, Bool, true, false, if◌then◌else◌, Option, none, some, ◌≡◌,
}
use tws_rust.Net.Addr.{SocketAddr, addr_eq}
use tws_rust.Server.State.{ServerOption, Server, new}
use tws_rust.Server.Accept.{Upgrade, client_addr}

-- What the stream of the listener gives: a request, or an error.
pub data Incoming : Type 0 where
  invalid : Incoming
  upgrade : Upgrade → Incoming

-- `.map(|t| Some(t)).or_else(…).filter_map(|t| t)`
abbrev pub recovered : Incoming → Option Upgrade
recovered invalid = none
recovered (upgrade u) = some u

-- The clients whose handshakes go on, in the order in which they came; those whose handshakes have failed, of which
-- only a warning is written; and the sessions.
pub record Listener : Type 0 where
  pub accepting : List SocketAddr
  pub failed : List SocketAddr
  pub sessions : List Server

abbrev pub idle : Listener
idle = record { accepting = []; failed = []; sessions = [] }

-- A task is spawned that accepts the request.
abbrev pub spawn_accept : Option Upgrade → Listener → Listener
spawn_accept none l = l
spawn_accept (some u) l = record l { accepting = l.accepting ++ client_addr u ∷ [] }

unfoldable pub serve : Incoming → Listener → Listener
unfolding client_addr
serve i l = spawn_accept (recovered i) l

abbrev put_before :
    SocketAddr → Option (SocketAddr × List SocketAddr) → Option (SocketAddr × List SocketAddr)
put_before addr none = none
put_before addr (some (x, rest)) = some (x, addr ∷ rest)

-- The task in a place, and the others.
unfoldable pub take_out : ℕ → List SocketAddr → Option (SocketAddr × List SocketAddr)
take_out i [] = none
take_out zero (addr ∷ rest) = some (addr, rest)
take_out (suc i) (addr ∷ rest) = put_before addr (take_out i rest)

-- The handshake is over: the session begins, or the error is logged.
abbrev pub run_session :
    ℕ → ServerOption → Bool → Option (SocketAddr × List SocketAddr) → Listener → Listener
run_session now option success none l = l
run_session now option true (some (addr, rest)) l = record l {
  accepting = rest;
  sessions = l.sessions ++ new now option addr ∷ [];
}
run_session now option false (some (addr, rest)) l = record l {
  accepting = rest;
  failed = l.failed ++ addr ∷ [];
}

unfoldable pub accepted : ℕ → ServerOption → Bool → ℕ → Listener → Listener
unfolding take_out
accepted now option success i l = run_session now option success (take_out i l.accepting) l

-- What happens, in any order: something comes in, or the handshake in a place is over.
pub data Event : Type 0 where
  comes : Incoming → Event
  ends : ℕ → Bool → ℕ → Event

unfoldable pub run : ServerOption → List Event → Listener → Listener
unfolding serve accepted
run option [] l = l
run option (comes i ∷ evs) l = run option evs (serve i l)
run option (ends now success i ∷ evs) l = run option evs (accepted now option success i l)

abbrev pub times : SocketAddr → List SocketAddr → ℕ
times a [] = 0
times a (x ∷ xs) = (if addr_eq x a then 1 else 0) + times a xs

-- The clients of the requests, and of the sessions.
abbrev pub requested : List Event → List SocketAddr
requested [] = []
requested (comes invalid ∷ evs) = requested evs
requested (comes (upgrade u) ∷ evs) = client_addr u ∷ requested evs
requested (ends now success i ∷ evs) = requested evs

abbrev pub is_client : SocketAddr → Option SocketAddr → ℕ
is_client a none = 0
is_client a (some x) = if addr_eq x a then 1 else 0

abbrev pub sessions_with : SocketAddr → List Server → ℕ
sessions_with a [] = 0
sessions_with a (s ∷ ss) = is_client a s.client + sessions_with a ss

abbrev pub IsFresh : ServerOption → Server → Type 0
IsFresh option s = (now : ℕ) × (addr : SocketAddr) × (s ≡ new now option addr)

-- How often a client is there at all.
abbrev total : SocketAddr → Listener → ℕ
total a l = sessions_with a l.sessions + (times a l.accepting + times a l.failed)
