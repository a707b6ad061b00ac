-- ===== src/Client/Expiry.antt =====
-- The periodic removal of pending connections by `ClientSession::run` of src/protocol/client.rs.
use tws_rust.Prelude.{ℕ, List, [], ◌∷◌, Bool, false, ◌||◌, Option, none, some, if◌then◌else◌}
use tws_rust.Text.Bytes.{Bytes, bytes_key, bytes_eq}
use tws_rust.Map.{Map}
use tws_rust.Client.State.{Client, Pending}
use tws_rust.Client.Handlers.{is_expired}

abbrev mem : Bytes → List Bytes → Bool
mem id [] = false
mem id (j ∷ ids) = bytes_eq j id || mem id ids

abbrev pub in_time : ℕ → ℕ → Option Pending → Option Pending
in_time now timeout none = none
in_time now timeout (some p) = if is_expired now timeout p then none else some p

abbrev late : ℕ → ℕ → Option Pending → Bool
late now timeout none = false
late now timeout (some p) = is_expired now timeout p
