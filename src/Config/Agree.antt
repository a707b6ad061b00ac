-- ===== src/Config/Agree.antt =====
-- The two ways in which src/parser.rs reads the options, a configuration file and the command line, compared.
use tws_rust.Prelude.{ℕ, ◌^◌, ◌<◌, List, map, All, Option, none, some, Result, ok, err, ◌≡◌}
use Prim.Native.String.{String}
use tws_rust.Text.Bytes.{Bytes}
use tws_rust.Text.Decimal.{show_ℕ}
use tws_rust.Net.Addr.{SocketAddr, IpAddr, v4, v6, InRange}
use tws_rust.Net.Show.{show_addr}
use tws_rust.Net.Read.{parse_addr}
use tws_rust.Net.Numbers.{parse_addr-show_addr}
use tws_rust.Util.SharedStream.Keeps.{Holds}
use tws_rust.Config.Options.{ClientDocument, ServerDocument, or_default, default_no_udp}
use tws_rust.Config.Args.{
  arg_listen, arg_server, arg_remote, arg_timeout, arg_retry_timeout, arg_connections, arg_passwd,
  arg_udp_timeout, ArgMatches,
}

abbrev pub shown : {A : Type 0} → (A → Bytes) → Option A → Option Bytes
shown show none = none
shown show (some a) = some (show a)

abbrev all_shown : Option (List SocketAddr) → Option (List Bytes)
all_shown none = none
all_shown (some addrs) = some (map show_addr addrs)

-- The arguments that say what a file says.
abbrev pub client_args : ClientDocument → ArgMatches
client_args d = record {
  given = λ arg. elim arg [
    | arg_connections ↦ shown show_ℕ d.connections
    | arg_listen ↦ shown show_addr d.listen
    | arg_remote ↦ shown show_addr d.remote
    | arg_server ↦ d.server
    | arg_passwd ↦ d.passwd
    | arg_timeout ↦ shown show_ℕ d.timeout
    | arg_retry_timeout ↦ shown show_ℕ d.retry_timeout
    | arg_udp_timeout ↦ shown show_ℕ d.udp_timeout
    | _ ↦ none
  ];
  given_all = λ arg. none;
  is_present = λ arg. or_default d.no_udp default_no_udp;
}

abbrev pub server_args : ServerDocument → ArgMatches
server_args d = record {
  given = λ arg. elim arg [
    | arg_listen ↦ shown show_addr d.listen
    | arg_passwd ↦ d.passwd
    | arg_timeout ↦ shown show_ℕ d.timeout
    | arg_udp_timeout ↦ shown show_ℕ d.udp_timeout
    | _ ↦ none
  ];
  given_all = λ arg. all_shown d.accept_remotes;
  is_present = λ arg. or_default d.no_udp default_no_udp;
}

abbrev pub IsV4 : SocketAddr → Type 0
IsV4 addr = elim addr.ip [
  | v4 a b c d ↦ InRange (v4 a b c d) × (addr.port < 65536)
  | v6 segments ↦ ⊥
]

-- An address that is read from its own text.
abbrev pub IsReadable : SocketAddr → Type 0
IsReadable addr = parse_addr (show_addr addr) ≡ some addr

abbrev pub IsWord : ℕ → Type 0
IsWord n = n < 2 ^ 64

parse_addr-shown_ip :
    (ip : IpAddr) (port : ℕ)
    → IsV4 (record { ip = ip; port = port })
    → parse_addr (show_addr (record { ip = ip; port = port }))
      ≡ some (record { ip = ip; port = port })
parse_addr-shown_ip (v4 a b c d) port h = parse_addr-show_addr a b c d port h.0 h.1
parse_addr-shown_ip (v6 segments) port h = absurd h

pub parse_addr-IsV4 : (addr : SocketAddr) → IsV4 addr → IsReadable addr
parse_addr-IsV4 addr h = parse_addr-shown_ip addr.ip addr.port h

abbrev pub to_option : {T : Type 0} → Result T → Option T
to_option (err message) = none
to_option (ok t) = some t

abbrev pub FitsClient : ClientDocument → Type 0
FitsClient d =
    Holds IsWord d.connections
    × Holds IsWord d.timeout
    × Holds IsWord d.retry_timeout
    × Holds IsWord d.udp_timeout
    × Holds IsReadable d.listen
    × Holds IsReadable d.remote

abbrev pub FitsServer : ServerDocument → Type 0
FitsServer d =
    Holds IsWord d.timeout
    × Holds IsWord d.udp_timeout
    × Holds IsReadable d.listen
    × Holds (All IsReadable) d.accept_remotes
