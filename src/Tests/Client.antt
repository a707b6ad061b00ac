-- ===== src/Tests/Client.antt =====
-- The client (src/protocol/client.rs) on concrete inputs.
use tws_rust.Prelude.{
  false, ◌-◌, ◌^◌, List, [], ◌∷◌, true, if◌then◌else◌, ltb, Option, none, some, ◌≡◌, ◌++◌, ℕ, refl,
  arith,
}
use tws_rust.Net.Addr.{SocketAddr, v4_addr}
use tws_rust.Protocol.Packet.{connection_state, ok_state}
use tws_rust.Client.State.{Client, new}
use tws_rust.Client.Handlers.{on_packet}
use tws_rust.Text.Bytes.{bytes_key}
use tws_rust.Client.Safety.{phase, packet_move, phase-on_packet}
use tws_rust.Client.Pool.{
  TwsClient, Event, starts, ends, accepts, empty_slot, accept_tcp, accept_udp, maintain_sessions,
  run,
}
use tws_rust.Client.Request.{AcceptsKeys, Waits, Visits}
use tws_rust.Client.Assign.{Dealt, accept_tcp-Dealt}
use tws_rust.Client.Restart.{IsFit, run-maintain_sessions}
use tws_rust.Client.Sessions.{retry_bound, retry_count, streak, backoff_bound}
use tws_rust.Tests.Toy.{toy, passwd, id}

abbrev fresh : Client
fresh = new 0 (record { passwd = passwd; remote = v4_addr 192 168 1 1 443; timeout = 5000 })

abbrev with_pending : Client
with_pending = record fresh {
  pending_connections = (id, record { created = 3; conn_id = id }) ∷ [];
}

phase_example :
    (s' : Client) × (on_packet 5 (connection_state id ok_state) with_pending ≡ some s')
    × (phase id s' ≡ packet_move id (connection_state id ok_state) (phase id with_pending))
phase_example = phase-on_packet 5 id (connection_state id ok_state) with_pending

abbrev sessions : List (Option Client)
sessions = none ∷ some (record fresh { connected = true }) ∷ []

-- Two failures after a session that ended well.
backoff_example : retry_bound (retry_count (true ∷ true ∷ false ∷ true ∷ [])) ≡ (
    if ltb (streak (true ∷ true ∷ false ∷ true ∷ [])) 64
    then 2 ^ streak (true ∷ true ∷ false ∷ true ∷ []) - 1
    else 2 ^ 64 - 1)
backoff_example = backoff_bound true (true ∷ false ∷ true ∷ []) (omega arith)

toy_keys : AcceptsKeys toy
toy_keys = record { every_key = λ key. ((λ body. key ++ body), refl) }

abbrev draws : List ℕ
draws = 23 ∷ 13 ∷ 9 ∷ 30 ∷ 0 ∷ 53 ∷ []

abbrev pool : TwsClient
pool = record {
  option = fresh.option;
  retry_timeout = 1000;
  slots =
      empty_slot
      ∷ record { session = some (record fresh { connected = true }); retry_count = 1; delay = 7 }
      ∷ [];
}

abbrev visitor : SocketAddr
visitor = v4_addr 127 0 0 1 40000

accept_example :
    Dealt Waits (0 ∷ 1 ∷ []) draws pool (accept_tcp toy 5 (0 ∷ 1 ∷ []) draws pool)
    × Dealt
        (Visits visitor)
        (0 ∷ 1 ∷ [])
        draws
        pool
        (accept_udp toy 5 (0 ∷ 1 ∷ []) draws visitor pool)
accept_example = accept_tcp-Dealt toy 5 (0 ∷ 1 ∷ []) draws visitor pool toy_keys (refl, omega arith)

abbrev story : List Event
story = starts 1 0 ∷ starts 1 1 ∷ accepts 2 (0 ∷ 1 ∷ []) draws ∷ ends true 0 1 ∷ starts 9 1 ∷ []

restart_example :
    (p : TwsClient) × (run toy story (maintain_sessions fresh.option 1000 2) ≡ some p) × IsFit 2 p
restart_example =
    run-maintain_sessions toy fresh.option 1000 2 story toy_keys
      (omega arith, (omega arith, ((refl, omega arith), (omega arith, (omega arith, tt)))))
