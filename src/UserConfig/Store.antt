-- ===== src/UserConfig/Store.antt =====
-- pkg/userconfig/store.go: Read, Write and Delete.
pub mod Spares
pub mod Isolation
pub mod Atomic
pub mod AllOrNothing
pub mod Deletion
pub mod ReadBack
use re_casa_os_user_service.Prelude.{
  ℕ, Bytes, codes, ◌++◌, ◌||◌, suc, ltb, not, length, false, true, zero,
}
use re_casa_os_user_service.Files.Disk.{
  interleave, attempt, lift, ignore, ◌>>=◌, ◌>>◌, pure, Action, Disk, touch, Entry, write_file,
  fail, chmod_file, lstat, rename_file, remove_file, open_file, draw_nonce, read_file, create_excl,
}
use re_casa_os_user_service.Files.{
  Answer, Info, done, failed, FileError, reject, missing, temporary_create, exists, owned_by,
  config_too_large, unsafe_storage, or_as, same_file,
}
use re_casa_os_user_service.UserConfig.Place.{Place, open_user_root}
use re_casa_os_user_service.UserConfig.Key.{validate_key}

abbrev pub max_config_bytes : ℕ
max_config_bytes = 1048576

abbrev pub filename : Bytes → Bytes
filename key = key ++ codes ".json"

abbrev pub temporary_prefix : Bytes
temporary_prefix = codes ".recasaos-custom-"

abbrev pub private_mode : ℕ
private_mode = 384

unfoldable pub validate_regular_file : ℕ → Info → Answer (Unit {0})
validate_regular_file euid i =
    reject (i.is_symlink || not i.is_regular || not (owned_by euid i) || ltb 1 i.links)
      unsafe_storage

-- The rest of the attempts, if the name was taken.
unfoldable pub after_create : Action Entry → Answer Entry → Action Entry
after_create again (done e) = pure e
after_create again (failed exists) = again
after_create again (failed e) = fail temporary_create

unfoldable pub create_attempts : ℕ → Bytes → ℕ → Action Entry
create_attempts euid h zero = fail temporary_create
create_attempts euid h (suc n) = do
  nonce ← attempt draw_nonce
  name ← lift (or_as temporary_create nonce)
  created ← attempt (create_excl euid h (temporary_prefix ++ name))
  after_create (create_attempts euid h n) created

unfoldable pub create_temporary_file : ℕ → Bytes → Action Entry
create_temporary_file euid h = create_attempts euid h 16

unfoldable pub sync_root : Action (Unit {0})
sync_root = do touch; synced ← attempt touch; ignore touch; lift synced

unfoldable pub open_existing_regular_file : ℕ → (Disk → Disk) → Bytes → Bytes → Action Entry
open_existing_regular_file euid others h name = do
  before ← lstat h name
  lift (validate_regular_file euid before.info)
  interleave others
  after ← open_file h name
  lift (or_as unsafe_storage (validate_regular_file euid after.info))
  lift (reject (not (same_file before.info after.info)) unsafe_storage)
  chmod_file h after private_mode

-- `p` is what the system answers about the directories, `others` what other requests do to the disk
-- between the inspection of the file and its opening.
unfoldable pub read : ℕ → (Disk → Disk) → Place → ℕ → Bytes → Action Bytes
read euid others p user_id key = do
  lift (validate_key key)
  h ← lift (open_user_root euid p user_id false)
  file ← open_existing_regular_file euid others h (filename key)
  contents ← read_file file (suc max_config_bytes)
  lift (reject (ltb max_config_bytes (length contents)) config_too_large)
  pure contents

-- A name that is not there yet is fine.
unfoldable pub replaceable : ℕ → Answer Entry → Answer (Unit {0})
replaceable euid (done e) = validate_regular_file euid e.info
replaceable euid (failed missing) = done tt
replaceable euid (failed e) = failed e

unfoldable pub fill : Bytes → Entry → Bytes → Action (Unit {0})
fill h t contents = do
  t' ← write_file h t contents
  secured ← chmod_file h t' private_mode
  touch
  touch

-- The deferred clean-up.
unfoldable pub discard : Bytes → Entry → FileError → Action (Unit {0})
discard h t e = do ignore (remove_file h t.name); fail e

unfoldable pub rename_reply : Bytes → Entry → Answer (Unit {0}) → Action (Unit {0})
rename_reply h t (failed e) = discard h t e
rename_reply h t (done u) = sync_root

unfoldable pub install_filled : Bytes → Entry → Bytes → Answer (Unit {0}) → Action (Unit {0})
install_filled h t name (failed e) = do ignore touch; discard h t e
install_filled h t name (done u) = do
  renamed ← attempt (rename_file h t.name name)
  rename_reply h t renamed

unfoldable pub install : Bytes → Entry → Bytes → Bytes → Action (Unit {0})
install h t name contents = do filled ← attempt (fill h t contents); install_filled h t name filled

unfoldable pub write : ℕ → Place → ℕ → Bytes → Bytes → Action (Unit {0})
write euid p user_id key contents = do
  lift (validate_key key)
  lift (reject (ltb max_config_bytes (length contents)) config_too_large)
  h ← lift (open_user_root euid p user_id true)
  found ← attempt (lstat h (filename key))
  lift (replaceable euid found)
  t ← create_temporary_file euid h
  install h t (filename key) contents

unfoldable pub delete : ℕ → Place → ℕ → Bytes → Action (Unit {0})
delete euid p user_id key = do
  lift (validate_key key)
  h ← lift (open_user_root euid p user_id false)
  file ← lstat h (filename key)
  lift (validate_regular_file euid file.info)
  remove_file h (filename key)
  sync_root
