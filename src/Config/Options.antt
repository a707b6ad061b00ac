-- ===== src/Config/Options.antt =====
-- `TwsClientOption` of src/protocol/client.rs and `TwsServerOption` of src/protocol/server.rs, and how `serde`
-- reads them from a configuration file.
use tws_rust.Prelude.{ℕ, List, Bool, false, Option, none, some}
use tws_rust.Text.Bytes.{Bytes}
use tws_rust.Net.Addr.{SocketAddr}

-- The defaults of src/protocol/util.rs.
abbrev pub default_timeout : ℕ
default_timeout = 5000

abbrev pub default_retry_timeout : ℕ
default_retry_timeout = 1000

abbrev pub default_connections : ℕ
default_connections = 2

abbrev pub default_no_udp : Bool
default_no_udp = false

abbrev pub default_udp_timeout : ℕ
default_udp_timeout = 60000

pub record TwsClientOption : Type 0 where
  pub connections : ℕ
  pub listen : SocketAddr
  pub remote : SocketAddr
  pub server : Bytes
  pub passwd : Bytes
  pub timeout : ℕ
  pub retry_timeout : ℕ
  pub no_udp : Bool
  pub udp_timeout : ℕ

pub record TwsServerOption : Type 0 where
  pub listen : SocketAddr
  pub passwd : Bytes
  pub timeout : ℕ
  pub no_udp : Bool
  pub udp_timeout : ℕ
  pub accept_remotes : List SocketAddr

-- The fields that a file gives, with their values already read.
pub record ClientDocument : Type 0 where
  pub connections : Option ℕ
  pub listen : Option SocketAddr
  pub remote : Option SocketAddr
  pub server : Option Bytes
  pub passwd : Option Bytes
  pub timeout : Option ℕ
  pub retry_timeout : Option ℕ
  pub no_udp : Option Bool
  pub udp_timeout : Option ℕ

pub record ServerDocument : Type 0 where
  pub listen : Option SocketAddr
  pub passwd : Option Bytes
  pub timeout : Option ℕ
  pub no_udp : Option Bool
  pub udp_timeout : Option ℕ
  pub accept_remotes : Option (List SocketAddr)

abbrev pub or_default : {A : Type 0} → Option A → A → A
or_default none a = a
or_default (some b) a = b

infixl 5 ◌>>=◌
abbrev ◌>>=◌ : {A B : Type 0} → Option A → (A → Option B) → Option B
none >>= next = none
some a >>= next = next a

-- A field without `#[serde(default)]` must be there.
unfoldable pub client_from_document : ClientDocument → Option TwsClientOption
client_from_document d = do
  listen ← d.listen
  remote ← d.remote
  server ← d.server
  passwd ← d.passwd
  some (record {
    connections = or_default d.connections default_connections;
    listen = listen;
    remote = remote;
    server = server;
    passwd = passwd;
    timeout = or_default d.timeout default_timeout;
    retry_timeout = or_default d.retry_timeout default_retry_timeout;
    no_udp = or_default d.no_udp default_no_udp;
    udp_timeout = or_default d.udp_timeout default_udp_timeout;
  })

unfoldable pub server_from_document : ServerDocument → Option TwsServerOption
server_from_document d = do
  listen ← d.listen
  passwd ← d.passwd
  accept_remotes ← d.accept_remotes
  some (record {
    listen = listen;
    passwd = passwd;
    timeout = or_default d.timeout default_timeout;
    no_udp = or_default d.no_udp default_no_udp;
    udp_timeout = or_default d.udp_timeout default_udp_timeout;
    accept_remotes = accept_remotes;
  })
