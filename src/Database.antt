-- ===== src/Database.antt =====
-- pkg/sqlite/db.go: opening the database. Its directory is seen through the system's answers, and the
-- files in it are those of a disk; gorm, SQLite and AutoMigrate are parameters.
pub mod Directory
pub mod Opening
mod Tests
use re_casa_os_user_service.Prelude.{
  ℕ, Bytes, Bool, false, codes, true, if◌then◌else◌, Option, none, ◌||◌, not, some,
}
use re_casa_os_user_service.Files.{
  Answer, done, reject, failed, missing, unsafe_storage, failure, owned_by, exists,
}
use re_casa_os_user_service.Files.Disk.{
  Action, Entry, Disk, pure, ◌>>=◌, ◌>>◌, call, lift, attempt, open_file, lookup, lstat, touch,
  fail, created, create_excl, set_dir, placed,
}
use re_casa_os_user_service.Database.Directory.{secure_directory, DatabaseDirectory}

abbrev pub database_filename : Bytes
database_filename = codes "user.db"

abbrev pub database_mode : ℕ
database_mode = 384

-- O_RDWR|O_CREATE: the file is opened, or made.
unfoldable pub open_or_create : ℕ → Bytes → Bytes → Action Entry
open_or_create euid h n = call (λ d. elim (lookup n (d.dirs h)) [
  | none ↦ created euid h n none d
  | some e ↦ (if e.info.is_symlink then d.link_target e else done e, d)
])

-- os.Chmod of a path: of a symbolic link it changes the file that the link names, in no directory here.
unfoldable pub chmod_found : Bytes → ℕ → Option Entry → Action (Unit {0})
chmod_found h mode none d = (failed missing, d)
chmod_found h mode (some e) d = if e.info.is_symlink then (done tt, d) else (
  done tt,
  set_dir h (placed (record e { info = record e.info { perm = mode } }) (d.dirs h)) d,
)

unfoldable pub chmod_path : Bytes → Bytes → ℕ → Action (Unit {0})
chmod_path h n mode = call (λ d. chmod_found h mode (lookup n (d.dirs h)) d)

unfoldable pub accept_database_file : ℕ → Bool → Answer Entry → Answer (Unit {0})
accept_database_file euid create (done e) =
    reject (e.info.is_symlink || not e.info.is_regular || not (owned_by euid e.info)) unsafe_storage
accept_database_file euid create (failed missing) = reject (not create) missing
accept_database_file euid create (failed x) = failed failure

abbrev pub open_flags : ℕ → Bytes → Bool → Action Entry
open_flags euid h true = open_or_create euid h database_filename
open_flags euid h false = open_file h database_filename

unfoldable pub secure_database_file : ℕ → Bytes → Bool → Action (Unit {0})
secure_database_file euid h create = do
  found ← attempt (lstat h database_filename)
  lift (accept_database_file euid create found)
  _ ← open_flags euid h create
  touch
  chmod_path h database_filename database_mode

-- `connect` is gorm.Open and DB, `migrate_tables` is AutoMigrate.
module _ (euid : ℕ) (p : DatabaseDirectory) (h : Bytes)
    (connect migrate_tables : Action (Unit {0})) where
  unfoldable pub migrate_if : Bool → Action (Unit {0})
  migrate_if migrate = if migrate then migrate_tables else pure tt

  unfoldable pub open_db : Bool → Bool → Action (Unit {0})
  open_db create migrate = do
    lift (reject p.is_blank unsafe_storage)
    lift (secure_directory euid create p)
    secure_database_file euid h create
    connect
    migrate_if migrate
    chmod_path h database_filename database_mode

  unfoldable pub get_db : Action (Unit {0})
  get_db = open_db true true

  unfoldable pub get_existing_db : Action (Unit {0})
  get_existing_db = open_db false false

  -- The claim of a new file: only a file that this call made is migrated.
  unfoldable pub after_claim : Answer Entry → Action (Unit {0})
  after_claim (done e) = do touch; open_db false true
  after_claim (failed exists) = open_db false false
  after_claim (failed e) = fail failure

  unfoldable pub get_bootstrap_db : Action (Unit {0})
  get_bootstrap_db = do
    lift (reject p.is_blank unsafe_storage)
    lift (secure_directory euid true p)
    claimed ← attempt (create_excl euid h database_filename)
    after_claim claimed
