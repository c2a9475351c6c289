-- ===== src/Database/Tests.antt =====
-- Runs of pkg/sqlite/db.go on small disks.
use re_casa_os_user_service.Prelude.{
  refl, codes, [], false, true, ◌≡◌, none, some, find_where, bytes_eq,
}
use re_casa_os_user_service.Database.{
  get_bootstrap_db, get_existing_db, database_filename, after_claim, open_db, secure_database_file,
  accept_database_file, chmod_path, chmod_found, migrate_if,
}
use re_casa_os_user_service.Database.Opening.{bootstrap_migrates_own, existing_makes_nothing}
use re_casa_os_user_service.Files.Disk.Seen.{seen}
use re_casa_os_user_service.Files.Disk.{
  Disk, Entry, touch, set_dir, new_file, placed, fail, ◌>>=◌, create_excl, call, created, lookup,
  lstat, open_file,
}
use re_casa_os_user_service.Files.{Info, FileError, failed, done, exists, failure, missing}
use re_casa_os_user_service.Database.Directory.{
  DatabaseDirectory, secure_directory, found_directory,
}

abbrev own_directory : Info
own_directory = record {
  file_id = 1;
  is_symlink = false;
  is_regular = false;
  is_dir = true;
  perm = 448;
  owner = some 7;
  links = 2;
}

abbrev directory : DatabaseDirectory
directory = record {
  is_blank = false;
  info = done own_directory;
  mkdir = failed exists;
  info_made = done own_directory;
  chmod = done tt;
}

abbrev empty_disk : Disk
empty_disk = record {
  dirs = λ h. [];
  next_id = 7;
  fails = λ n. false;
  calls = 0;
  torn = λ s. [];
  link_target = λ e. failed missing;
  nonce = λ n. failed failure;
  draws = 0;
}

abbrev db_file : Entry
db_file = new_file 7 empty_disk database_filename

abbrev with_db : Disk
with_db = set_dir (codes "db") (placed db_file []) empty_disk

-- A new database is migrated: a migration that fails makes the command fail.
new_is_migrated :
    (get_bootstrap_db 7 directory (codes "db") touch (fail failure) empty_disk).0 ≡ failed failure
unfolding get_bootstrap_db ◌>>=◌ secure_directory found_directory after_claim create_excl call
    created lookup find_where touch open_db secure_database_file accept_database_file lstat bytes_eq
    placed open_file chmod_path chmod_found migrate_if
new_is_migrated = refl

old_opens : (get_bootstrap_db 7 directory (codes "db") touch (fail failure) with_db).0 ≡ done tt
unfolding get_bootstrap_db ◌>>=◌ secure_directory found_directory after_claim create_excl call
    created lookup find_where bytes_eq placed open_db secure_database_file accept_database_file
    lstat open_file touch chmod_path chmod_found migrate_if
old_opens = refl

has_db : seen (codes "db") database_filename with_db ≡ some db_file
unfolding seen lookup find_where bytes_eq placed
has_db = refl

bootstrap_migrates_own_example :
    get_bootstrap_db 7 directory (codes "db") touch touch with_db
    ≡ get_bootstrap_db 7 directory (codes "db") touch (fail failure) with_db
bootstrap_migrates_own_example =
    bootstrap_migrates_own 7 directory (codes "db") touch touch (fail failure) db_file with_db
      has_db

has_no_db : seen (codes "db") database_filename empty_disk ≡ none
unfolding seen lookup find_where
has_no_db = refl

existing_makes_nothing_example :
    ((e : FileError) × ((get_existing_db 7 directory (codes "db") touch touch empty_disk).0
        ≡ failed e))
    × ((get_existing_db 7 directory (codes "db") touch touch empty_disk).1.dirs ≡ empty_disk.dirs)
existing_makes_nothing_example =
    existing_makes_nothing 7 directory (codes "db") touch touch empty_disk has_no_db
