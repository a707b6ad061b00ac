-- ===== src/Tests/Config.antt =====
-- The options (src/parser.rs, src/main.rs) on concrete inputs: the files of the example directory.
use tws_rust.Prelude.{false, none, some, ◌≡◌, refl, ◌↔◌, ◌⊎◌, inr}
use tws_rust.Text.Bytes.{codes}
use tws_rust.Net.Addr.{v4_addr}
use tws_rust.Config.Options.{ClientDocument, ServerDocument}
use tws_rust.Config.Args.{arg_config, ArgMatches, value_of}
use tws_rust.Config.Main.{server, exit, main_thread, main_thread-server}

-- example/client.yaml
abbrev client_yaml : ClientDocument
client_yaml = record {
  connections = some 2;
  listen = some (v4_addr 127 0 0 1 5203);
  remote = some (v4_addr 127 0 0 1 5201);
  server = some (codes "ws://127.0.0.1:5202");
  passwd = some (codes "my_super_safe_password");
  timeout = some 5000;
  retry_timeout = some 1000;
  no_udp = some false;
  udp_timeout = some 60000;
}

-- example/server.yaml
abbrev server_yaml : ServerDocument
server_yaml = record {
  listen = some (v4_addr 127 0 0 1 5202);
  passwd = some (codes "my_super_safe_password");
  timeout = some 5000;
  no_udp = some false;
  udp_timeout = some 60000;
  accept_remotes = none;
}

abbrev with_config : ArgMatches
with_config = record {
  given = λ arg. elim arg [ arg_config ↦ some (codes "example/server.yaml") | _ ↦ none ];
  given_all = λ arg. none;
  is_present = λ arg. false;
}

config_example :
    (main_thread (λ file. some server_yaml) (λ file. none) (server with_config) ≡ exit 1) ↔ (
      (server_yaml.listen ≡ none)
      ⊎ ((server_yaml.passwd ≡ none) ⊎ (server_yaml.accept_remotes ≡ none)))
unfolding value_of
config_example =
    main_thread-server (λ file. some server_yaml) (λ file. none) with_config
      (codes "example/server.yaml") server_yaml refl refl

-- So the server does not start with the example's file.
refused : main_thread (λ file. some server_yaml) (λ file. none) (server with_config) ≡ exit 1
unfolding value_of
refused =
    (main_thread-server (λ file. some server_yaml) (λ file. none) with_config
        (codes "example/server.yaml") server_yaml refl refl).1
      (inr (inr refl))
