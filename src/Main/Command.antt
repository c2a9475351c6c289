-- ===== src/Main/Command.antt =====
-- main.go: run and the local commands bootstrap-admin, reset-admin-password and
-- reset-user-password. What each command does to the tables is in Users/Reset.
pub mod Authorized
use re_casa_os_user_service.Prelude.{
  ℕ, List, Bytes, ◌∷◌, Option, if◌then◌else◌, bytes_eq, codes, [], some,
}
use re_casa_os_user_service.Files.{Answer, done, failed}
use re_casa_os_user_service.Main.Start.{Start, prepare, UserData, secure_user_data_directory}
use re_casa_os_user_service.Store.{
  ◌>>=◌, ◌>>◌, Result, M, ok, err, raise, prepare_failure, command_refused, pure, World,
}
use re_casa_os_user_service.Password.{Kdf}
use re_casa_os_user_service.Files.Disk.{Action, Disk}
use re_casa_os_user_service.Database.{get_bootstrap_db, get_existing_db}
use re_casa_os_user_service.Database.Directory.{DatabaseDirectory}
use re_casa_os_user_service.Bootstrap.State.{Seal}
use re_casa_os_user_service.Users.Reset.{
  Schema, reset_admin_password, bootstrap_admin, reset_user_password,
}

abbrev pub as_hook : Answer (Unit {0}) → Result (Unit {0})
as_hook (done u) = ok u
as_hook (failed e) = err prepare_failure

pub data Subcommand : Type 0 where
  bootstrap_administrator reset_administrator reset_user server : Subcommand

-- The first argument.
unfoldable pub subcommand : List Bytes → Subcommand
subcommand [] = server
subcommand (a ∷ args) =
    if bytes_eq a (codes "bootstrap-admin")
    then bootstrap_administrator
    else if bytes_eq a (codes "reset-admin-password")
    then reset_administrator
    else if bytes_eq a (codes "reset-user-password")
    then reset_user
    else server

-- The database of a command: its directory as the system answers about it, the directory's path,
-- gorm.Open with DB, and AutoMigrate.
pub record Storage : Type 0 where
  pub place : DatabaseDirectory
  pub path : Bytes
  pub connect : Action (Unit {0})
  pub migrate_tables : Action (Unit {0})

-- What a command runs on: the files, and the tables as an open database shows them.
abbrev pub Machine : Type 0
Machine = Disk × World

abbrev pub Command : Type 0
Command = Machine → Result (Unit {0}) × Machine

-- The body of a command runs on the tables, if the database opened.
unfoldable pub when_opened :
    Answer (Unit {0}) × Disk → M (Unit {0}) → World → Result (Unit {0}) × Machine
when_opened (failed e, d) body w = (err command_refused, (d, w))
when_opened (done u, d) body w = ((body w).0, (d, (body w).1))

-- The database is opened and the body run, if the command was prepared.
unfoldable pub when_prepared :
    Answer (Bytes × Bytes) → Action (Unit {0}) → (Bytes → Bytes → M (Unit {0})) → Command
when_prepared (done (username, password)) connection body m =
    when_opened (connection m.0) (body username password) m.1
when_prepared (failed e) connection body m = (err command_refused, m)

unfoldable pub open_bootstrap : Storage → Start → Action (Unit {0})
open_bootstrap g c = get_bootstrap_db c.effective_uid g.place g.path g.connect g.migrate_tables

unfoldable pub open_existing : Storage → Start → Action (Unit {0})
open_existing g c = get_existing_db c.effective_uid g.place g.path g.connect g.migrate_tables

-- `run_server` is what the service itself does.
module _ (k : Kdf) (random : ℕ → Option Bytes) (s : Seal) (schema : Schema)
    (user_data : ℕ → UserData) (g : Storage) (run_server : Command) where
  unfoldable pub bootstrap_body : Bytes → Bytes → M (Unit {0})
  bootstrap_body username password = do
    _ ←
        bootstrap_admin k random (some s) username password
          (some (λ i. as_hook (secure_user_data_directory (user_data i))))
    pure tt

  unfoldable pub run_bootstrap_admin : Start → Command
  run_bootstrap_admin c = when_prepared (prepare c) (open_bootstrap g c) bootstrap_body

  unfoldable pub run_reset_admin_password : Start → Command
  run_reset_admin_password c =
      when_prepared (prepare c) (open_existing g c) (reset_admin_password k random (some s) schema)

  unfoldable pub run_reset_user_password : Start → Command
  run_reset_user_password c =
      when_prepared (prepare c) (open_existing g c) (reset_user_password k random (some s) schema)

  unfoldable pub run_subcommand : Start → Subcommand → Command
  run_subcommand c bootstrap_administrator = run_bootstrap_admin c
  run_subcommand c reset_administrator = run_reset_admin_password c
  run_subcommand c reset_user = run_reset_user_password c
  run_subcommand c server = run_server

  unfoldable pub run : Start → List Bytes → Command
  run c args = run_subcommand c (subcommand args)
