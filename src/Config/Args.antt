-- ===== src/Config/Args.antt =====
-- The command line: the arguments of src/cli.yaml, and `try_from` of src/parser.rs.
use tws_rust.Prelude.{ℕ, List, [], ◌∷◌, Bool, Option, none, some, Result, ok, ok_or, ◌>>=◌}
use Prim.Native.String.{String}
use tws_rust.Text.Bytes.{Bytes, codes}
use tws_rust.Text.Decimal.Unsigned.{parse_u64}
use tws_rust.Net.Addr.{SocketAddr}
use tws_rust.Net.Read.{parse_addr}
use tws_rust.Config.Options.{
  TwsClientOption, TwsServerOption, ClientDocument, ServerDocument, client_from_document,
  server_from_document,
}

pub data Arg : Type 0 where
  arg_config arg_listen arg_server arg_remote arg_timeout arg_retry_timeout arg_connections
        arg_passwd :
      Arg
  arg_no_udp arg_udp_timeout arg_accept_remotes : Arg

-- What is given on the command line, once `clap` has read it.
pub record ArgMatches : Type 0 where
  pub given : Arg → Option Bytes
  pub given_all : Arg → Option (List Bytes)
  pub is_present : Arg → Bool

-- `default_value` of src/cli.yaml.
unfoldable pub default_value : Arg → Option Bytes
default_value arg_timeout = some (codes "5000")
default_value arg_udp_timeout = some (codes "60000")
default_value arg_retry_timeout = some (codes "1000")
default_value arg_connections = some (codes "2")
default_value _ = none

abbrev pub or_else : Option Bytes → Option Bytes → Option Bytes
or_else none o = o
or_else (some v) o = some v

unfoldable pub value_of : Arg → ArgMatches → Option Bytes
unfolding default_value
value_of arg m = or_else (m.given arg) (default_value arg)

-- `args.value_of(…).ok_or(…)?` and, for what is not a text, `.parse().map_err(…)?`
abbrev pub text_of : Option Bytes → String → Result Bytes
text_of o missing = ok_or o missing

abbrev pub number_of : Option Bytes → String → String → Result ℕ
number_of o missing invalid = ok_or o missing >>= (λ v. ok_or (parse_u64 v) invalid)

abbrev pub address_of : Option Bytes → String → String → Result SocketAddr
address_of o missing invalid = ok_or o missing >>= (λ v. ok_or (parse_addr v) invalid)

-- `.map(|v| v.parse()).collect::<Result<Vec<_>, _>>()`
unfoldable pub parse_all : List Bytes → Option (List SocketAddr)
parse_all [] = some []
parse_all (v ∷ vs) =
    let rest = parse_all vs in
    elim (parse_addr v) [
      | none ↦ none
      | some addr ↦ elim rest [ none ↦ none | some addrs ↦ some (addr ∷ addrs) ]
    ]

abbrev pub or_empty : Option (List Bytes) → List Bytes
or_empty none = []
or_empty (some vs) = vs

unfoldable pub client_from_args : ArgMatches → Result TwsClientOption
unfolding value_of
client_from_args m = do
  connections ←
      number_of (value_of arg_connections m) "WTF"
        "Invalid value of `connections`. Must be a number"
  listen ←
      address_of (value_of arg_listen m) "`listen` is required"
        "Invalid value of `listen`. Must be an address."
  server ← text_of (value_of arg_server m) "`server` is required"
  remote ←
      address_of (value_of arg_remote m) "`remote` is required"
        "Invalid value of `remote`. Must be an address."
  passwd ← text_of (value_of arg_passwd m) "`passwd` is required"
  timeout ← number_of (value_of arg_timeout m) "WTF" "Invalid value of `timeout`. Must be a number"
  retry_timeout ←
      number_of (value_of arg_retry_timeout m) "WTF"
        "Invalid value of `retry_timeout`. Must be a number"
  udp_timeout ←
      number_of (value_of arg_udp_timeout m) "WTF"
        "Invalid value of `udp_timeout`. Must be a number"
  ok (record {
    connections = connections;
    listen = listen;
    remote = remote;
    server = server;
    passwd = passwd;
    timeout = timeout;
    retry_timeout = retry_timeout;
    no_udp = m.is_present arg_no_udp;
    udp_timeout = udp_timeout;
  })

unfoldable pub server_from_args : ArgMatches → Result TwsServerOption
unfolding value_of parse_all
server_from_args m = do
  listen ←
      address_of (value_of arg_listen m) "`listen` is required"
        "Invalid value of `listen`. Must be an address."
  passwd ← text_of (value_of arg_passwd m) "`passwd` is required"
  timeout ← number_of (value_of arg_timeout m) "WTF" "Invalid value of `timeout`. Must be a number"
  udp_timeout ←
      number_of (value_of arg_udp_timeout m) "WTF"
        "Invalid value of `udp_timeout`. Must be a number"
  accept_remotes ←
      ok_or (parse_all (or_empty (m.given_all arg_accept_remotes)))
        "Invalid value of `accept_remotes`."
  ok (record {
    listen = listen;
    passwd = passwd;
    timeout = timeout;
    no_udp = m.is_present arg_no_udp;
    udp_timeout = udp_timeout;
    accept_remotes = accept_remotes;
  })

-- `load_config_file`, where `read` opens a file and reads its fields, and `none` is a panic: of an `expect`, or
-- of `serde` on a field that is missing.
abbrev pub checked : {T : Type 0} → Option T → Option (Option T)
checked none = none
checked (some t) = some (some t)

abbrev pub decoded : {D T : Type 0} → (D → Option T) → Option D → Option (Option T)
decoded from_document none = none
decoded from_document (some d) = checked (from_document d)

abbrev pub loaded :
    {D T : Type 0} → (Bytes → Option D) → (D → Option T) → Option Bytes → Option (Option T)
loaded read from_document none = some none
loaded read from_document (some file) = decoded from_document (read file)

-- A configuration file overrides all else.
abbrev pub or_args : {T : Type 0} → Option (Option T) → Result T → Option (Result T)
or_args none r = none
or_args (some none) r = some r
or_args (some (some t)) r = some (ok t)

unfoldable pub client_try_from :
    (Bytes → Option ClientDocument) → ArgMatches → Option (Result TwsClientOption)
unfolding value_of client_from_document client_from_args
client_try_from read m =
    or_args (loaded read client_from_document (value_of arg_config m)) (client_from_args m)

unfoldable pub server_try_from :
    (Bytes → Option ServerDocument) → ArgMatches → Option (Result TwsServerOption)
unfolding value_of server_from_document server_from_args
server_try_from read m =
    or_args (loaded read server_from_document (value_of arg_config m)) (server_from_args m)
