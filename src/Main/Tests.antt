-- ===== src/Main/Tests.antt =====
-- Runs of the local commands of main.go.
use re_casa_os_user_service.Prelude.{
  ℕ, Bytes, List, ◌≡◌, true, codes, [], false, ◌∷◌, some, refl, if◌then◌else◌, ◌++◌, bytes_eq, ◌||◌,
  contains_byte, itoa, exists_where, ◌↔◌, subst, arith, sym, ◌∙◌, find_where,
}
use re_casa_os_user_service.Main.Command.{
  run, run_subcommand, subcommand, when_prepared, run_bootstrap_admin, bootstrap_administrator,
  bootstrap_body, Command, when_opened, open_bootstrap, Machine, Storage,
}
use re_casa_os_user_service.Main.Placement.{
  PathSystem, Components, require_seal_outside_database, resolved,
  resolve_through_existing_ancestor, probe_loop, probe_step, path_parent, stays_inside,
  relative_path, path_name,
}
use re_casa_os_user_service.Files.{Answer, Info, done, failed, missing, done-injective}
use re_casa_os_user_service.Database.{
  get_bootstrap_db, after_claim, open_db, secure_database_file, accept_database_file, chmod_path,
  chmod_found, migrate_if,
}
use re_casa_os_user_service.Database.Directory.{secure_directory, found_directory}
use re_casa_os_user_service.UserConfig.Tests.{disk}
use re_casa_os_user_service.Files.Disk.{
  Disk, touch, placed, create_excl, call, created, lookup, lstat, open_file,
}
use re_casa_os_user_service.Main.Start.{
  Start, prepare, UserData, secure_user_data_directory, found_user_data,
}
use re_casa_os_user_service.Users.Reset.{
  Schema, bootstrap_admin, username_pattern, all_name_bytes, sealed_id, command_event,
}
use re_casa_os_user_service.Samples.{toy_kdf, toy_seal, secret, world_of, empty_db, toy_laws}
use re_casa_os_user_service.Main.Credential.{
  CredentialSource, read_credential, private_info, secret_of,
}
use re_casa_os_user_service.Store.{◌>>=◌, ok}
use re_casa_os_user_service.Bootstrap.FileSeal.{trim_last}
use re_casa_os_user_service.Users.{validate_new_password, has_line_byte, new_hash}
use re_casa_os_user_service.Password.{
  hash, hash_with_reader, invalid_parameters, outside, is_argon2id, parse, parse_parts, split_by,
  phc_string, derive_key, parse_costs, parse_field, parse_uint, starts_with_zero, parse_digits,
}
use re_casa_os_user_service.Bootstrap.Create.{
  create_admin, create_with, create_body, insert_admin, add_admin, run_hook, seal_state,
  finish_create,
}
use re_casa_os_user_service.Bootstrap.State.{
  reconcile_state, new_installation_id, with_immediate_transaction, reconcile_body, reconcile_by,
  insert_row, seal_if, reconcile_absent, user_summary, status_eq,
}
use re_casa_os_user_service.Bootstrap.Identifier.{installation_id_of, dashed, hex_encode, hex_digit}
use re_casa_os_user_service.Main.Placement.Ancestor.{LongestAncestor, resolved_longest}
use re_casa_os_user_service.Main.Placement.Outside.{
  has_parent_name, IsOutside, require_seal_outside_database_lem,
}
use re_casa_os_user_service.Main.Placement.Loop.{resolve_terminates}
use re_casa_os_user_service.Main.Command.Authorized.{Authorized, bootstrap_command_ok}
use re_casa_os_user_service.Users.Reset.Bootstrapped.{Bootstrapped}
use re_casa_os_user_service.Main.Credential.Exact.{
  Guarded, IsSecret, HoldsSecret, read_credential_lem,
}

abbrev private_directory : Info
private_directory = record {
  file_id = 3;
  is_symlink = false;
  is_regular = false;
  is_dir = true;
  perm = 320;
  owner = some 0;
  links = 2;
}

abbrev private_file : Info
private_file = record private_directory {
  file_id = 4;
  is_regular = true;
  is_dir = false;
  perm = 256;
}

-- A credential whose file has these contents.
abbrev credential : Bytes → CredentialSource
credential s = record {
  is_absolute = true;
  directory = done private_directory;
  before = done private_file;
  open_file = done tt;
  after = done private_file;
  contents = done s;
}

-- Only the root directory, /etc and /var exist.
abbrev small_system : PathSystem
small_system = record {
  lstat = λ p. elim p [
    | [] ↦ done private_directory
    | (c ∷ []) ↦
        if bytes_eq c (codes "etc") || bytes_eq c (codes "var")
        then done private_directory
        else failed missing
    | (c ∷ c' ∷ q) ↦ failed missing
  ];
  eval_symlinks = λ p. done p;
}

abbrev seal_place : Answer Components
seal_place = done (codes "etc" ∷ codes "casaos" ∷ codes "user-bootstrap.seal" ∷ [])

abbrev database_place : Answer Components
database_place = done (codes "var" ∷ codes "db" ∷ [])

abbrev start_command : Start
start_command = record {
  flags = done 0;
  effective_uid = 0;
  lock = done tt;
  has_credentials_directory = true;
  username = credential (codes "root");
  password = credential (secret ++ (10 ∷ []));
  paths = small_system;
  database = database_place;
  seal_path = seal_place;
}

abbrev no_data : ℕ → UserData
no_data i = record { info = failed missing; mkdir = done tt; chmod = done tt }

abbrev schema : Schema
schema = record { has_state_table = true; has_token_version = true; has_sessions = true }

abbrev command_line : List Bytes
command_line = codes "bootstrap-admin" ∷ []

prepared : prepare start_command ≡ done (codes "root", secret)
unfolding prepare read_credential private_info secret_of trim_last contains_byte
    require_seal_outside_database resolved resolve_through_existing_ancestor probe_loop probe_step
    path_parent bytes_eq stays_inside relative_path
prepared = refl

abbrev root_directory : Info
root_directory = record private_directory { perm = 448 }

abbrev storage : Storage
storage = record {
  place = record {
    is_blank = false;
    info = done root_directory;
    mkdir = failed missing;
    info_made = done root_directory;
    chmod = done tt;
  };
  path = codes "db";
  connect = λ d. (done tt, d);
  migrate_tables = λ d. (done tt, d);
}

abbrev machine : Machine
machine = (disk, world_of empty_db)

abbrev run_server : Command
run_server m = (ok tt, m)

command_succeeds :
    (run toy_kdf toy_kdf.salts toy_seal schema no_data storage run_server start_command command_line
      machine).0
    ≡ ok tt
unfolding run when_opened open_bootstrap get_bootstrap_db secure_directory found_directory
    after_claim create_excl call created lookup find_where touch open_db secure_database_file
    accept_database_file lstat placed open_file chmod_path chmod_found migrate_if
    re_casa_os_user_service.Files.Disk.◌>>=◌ run_subcommand subcommand bytes_eq when_prepared
    prepare read_credential private_info secret_of trim_last contains_byte
    require_seal_outside_database resolved resolve_through_existing_ancestor probe_loop probe_step
    path_parent stays_inside relative_path run_bootstrap_admin bootstrap_body ◌>>=◌ bootstrap_admin
    username_pattern all_name_bytes validate_new_password has_line_byte new_hash hash
    hash_with_reader invalid_parameters outside create_admin is_argon2id parse parse_parts split_by
    phc_string itoa derive_key parse_costs parse_field parse_uint starts_with_zero parse_digits
    reconcile_state new_installation_id with_immediate_transaction reconcile_body reconcile_by
    insert_row seal_if reconcile_absent user_summary status_eq create_with create_body
    installation_id_of dashed hex_encode hex_digit insert_admin add_admin exists_where run_hook
    secure_user_data_directory found_user_data seal_state finish_create sealed_id command_event
command_succeeds = refl

is_bootstrap : subcommand command_line ≡ bootstrap_administrator
unfolding subcommand bytes_eq
is_bootstrap = refl

bootstrap_command_ok_example :
    (u : Bytes) × (p : Bytes) × Authorized start_command u p
    × ((open_bootstrap storage start_command disk).0 ≡ done tt)
    × ((run toy_kdf toy_kdf.salts toy_seal schema no_data storage run_server start_command
          command_line machine).1.0
        ≡ (open_bootstrap storage start_command disk).1)
    × (i : ℕ) × Bootstrapped toy_kdf u [] i
        (run toy_kdf toy_kdf.salts toy_seal schema no_data storage run_server start_command
          command_line machine).1.1.db
bootstrap_command_ok_example =
    bootstrap_command_ok toy_kdf toy_kdf.salts toy_seal schema no_data storage run_server
      start_command command_line machine toy_laws is_bootstrap command_succeeds

reads_secret : read_credential 0 (credential (secret ++ (10 ∷ []))) ≡ done secret
unfolding read_credential private_info secret_of trim_last contains_byte
reads_secret = refl

read_credential_lem_example :
    (read_credential 0 (credential (secret ++ (10 ∷ []))) ≡ done secret) ↔ (
      Guarded 0 (credential (secret ++ (10 ∷ [])))
      × (f : Bytes) × (done (secret ++ (10 ∷ [])) ≡ done f)
      × IsSecret secret
      × HoldsSecret secret f)
read_credential_lem_example = read_credential_lem 0 (credential (secret ++ (10 ∷ []))) secret

resolve_terminates_example :
    resolve_through_existing_ancestor small_system 9 seal_place
    ≡ some (resolved small_system seal_place)
resolve_terminates_example = resolve_terminates small_system 9 seal_place (omega arith)

resolves_seal : resolved small_system seal_place ≡ seal_place
unfolding resolved resolve_through_existing_ancestor probe_loop probe_step path_parent path_name
    bytes_eq
resolves_seal = refl

resolved_longest_example :
    LongestAncestor small_system
      (codes "etc" ∷ codes "casaos" ∷ codes "user-bootstrap.seal" ∷ [])
      (codes "etc" ∷ codes "casaos" ∷ codes "user-bootstrap.seal" ∷ [])
resolved_longest_example =
    resolved_longest small_system (codes "etc" ∷ codes "casaos" ∷ codes "user-bootstrap.seal" ∷ [])
      (codes "etc" ∷ codes "casaos" ∷ codes "user-bootstrap.seal" ∷ []) resolves_seal

seal_has_no_parent :
    (s : Components) → resolved small_system seal_place ≡ done s → has_parent_name s ≡ false
unfolding exists_where bytes_eq
seal_has_no_parent s q =
    subst (λ x. has_parent_name x ≡ false) (done-injective (sym resolves_seal ∙ q)) refl

require_seal_outside_database_lem_example :
    (require_seal_outside_database small_system database_place seal_place ≡ done tt)
    ↔ IsOutside small_system database_place seal_place
require_seal_outside_database_lem_example =
    require_seal_outside_database_lem small_system database_place seal_place seal_has_no_parent
