-- ===== src/Config/Main.antt =====
-- src/main.rs: from the command line to the task that runs, and the status with which the program exits.
use tws_rust.Prelude.{
  ℕ, Option, none, some, Result, ok, err, ◌≡◌, refl, ◌↔◌, ◌⊎◌, ◌≢◌, ap, ◌∙◌, inl, inr, Option-cases,
  sym, arith,
}
use tws_rust.Text.Bytes.{Bytes}
use tws_rust.Config.Options.{
  TwsClientOption, TwsServerOption, ClientDocument, ServerDocument, server_from_document,
}
use tws_rust.Config.Args.{
  ArgMatches, arg_config, value_of, client_try_from, server_try_from, or_args, loaded, decoded,
  checked, server_from_args,
}

-- The subcommand that is given.
pub data Command : Type 0 where
  server client : ArgMatches → Command
  no_command : Command

-- The hook of `main` turns every panic into an exit with status 1.
pub data Start : Type 0 where
  serve : TwsServerOption → Start
  forward : TwsClientOption → Start
  exit : ℕ → Start

-- `unwrap_or_else`: `err_invalid_arguments` prints the message and panics.
abbrev pub start_with : {T : Type 0} → (T → Start) → Option (Result T) → Start
start_with task none = exit 1
start_with task (some (err message)) = exit 1
start_with task (some (ok option)) = task option

-- `main_thread`, up to the run of the task.
unfoldable pub main_thread :
    (Bytes → Option ServerDocument) → (Bytes → Option ClientDocument) → Command → Start
unfolding client_try_from server_try_from
main_thread read_server read_client (server m) = start_with serve (server_try_from read_server m)
main_thread read_server read_client (client m) = start_with forward (client_try_from read_client m)
main_thread read_server read_client no_command = exit 1

-- … and its end: `unwrap` panics on an error.
unfoldable pub exit_status : Result (Unit {0}) → ℕ
exit_status (err message) = 1
exit_status (ok done) = 0

never_exit : (option : TwsServerOption) → serve option ≢ exit 1
never_exit option h = cc

-- A server with a configuration file starts exactly if the file gives an address to listen on, a password and
-- the list of the remotes that it accepts; what else is on the command line does not matter.
pub main_thread-server :
    (read_server : Bytes → Option ServerDocument) (read_client : Bytes → Option ClientDocument)
    (m : ArgMatches) (file : Bytes) (d : ServerDocument)
    → value_of arg_config m ≡ some file
    → read_server file ≡ some d
    → (main_thread read_server read_client (server m) ≡ exit 1)
      ↔ ((d.listen ≡ none) ⊎ ((d.passwd ≡ none) ⊎ (d.accept_remotes ≡ none)))
unfolding main_thread server_try_from server_from_document
main_thread-server read_server read_client m file d e f =
    let starts : main_thread read_server read_client (server m)
        ≡ start_with serve (or_args (checked (server_from_document d)) (server_from_args m)) =
      ap
        (λ o.
          start_with serve
            (or_args (loaded read_server server_from_document o) (server_from_args m)))
        e
      ∙ ap (λ o. start_with serve (or_args (decoded server_from_document o) (server_from_args m)))
          f in
    let without = λ (h : server_from_document d ≡ none).
      starts ∙ ap (λ o. start_with serve (or_args (checked o) (server_from_args m))) h in
    elim (Option-cases d.listen) [
      | inl a ↦ ((λ h. inl a), (λ h. without (rw a refl)))
      | inr (listen, a) ↦ elim (Option-cases d.passwd) [
        | inl b ↦ ((λ h. inr (inl b)), (λ h. without (rw (a, b) refl)))
        | inr (passwd, b) ↦ elim (Option-cases d.accept_remotes) [
          | inl c ↦ ((λ h. inr (inr c)), (λ h. without (rw (a, b, c) refl)))
          | inr (remotes, c) ↦ (
            (λ h. absurd (never_exit _ (rw (a, b, c) at (sym starts ∙ h)))),
            (λ h. absurd (ground arith)),
          )
        ]
      ]
    ]
