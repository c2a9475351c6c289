-- ===== src/Bootstrap/FileSeal.antt =====
-- pkg/userbootstrap/file_seal.go: the bootstrap seal as a file. The checks of its directory are in
-- FileSeal/Directory; the files are those of a disk.
pub mod Directory
pub mod Format
pub mod Register
pub mod Idle
pub mod Load
pub mod Temporary
pub mod Publish
pub mod Create
pub mod Refine
pub mod Live
pub mod Clean
pub mod Succeeds
mod Tests
use re_casa_os_user_service.Prelude.{
  ℕ, Bytes, none, some, true, false, [], ◌∷◌, if◌then◌else◌, codes, Option, ◌++◌, Bool, ◌==◌, ◌||◌,
  not, bytes_eq, suc, has_prefix, contains_byte, drop, zero,
}
use re_casa_os_user_service.Files.{
  Answer, done, failed, Info, missing, exists, reject, invalid_seal, same_file, owned_by,
}
use re_casa_os_user_service.Files.Disk.{
  ◌>>=◌, ◌>>◌, pure, Action, fail, lift, attempt, ignore, Disk, touch, Entry, lstat, interleave,
  chmod_file, remove_file, link_file, open_nofollow, write_file, draw_nonce, read_file, create_excl,
}
use re_casa_os_user_service.Bootstrap.FileSeal.Directory.{
  ensure_seal_directory, SealDirectory, validate_existing_seal_directory, refreshed,
}
use re_casa_os_user_service.Bootstrap.Identifier.{valid_installation_id}

abbrev pub seal_format_prefix : Bytes
seal_format_prefix = codes "recasaos-user-bootstrap-v1:"

abbrev pub newline : ℕ
newline = 10

abbrev pub seal_mode : ℕ
seal_mode = 384

-- bytes.TrimSuffix and strings.TrimSuffix for a suffix of one byte.
unfoldable pub trim_last : ℕ → Bytes → Bytes
trim_last c [] = []
trim_last c (b ∷ []) = if b == c then [] else b ∷ []
trim_last c (b ∷ b' ∷ s) = b ∷ trim_last c (b' ∷ s)

-- The installation id of the contents without the last newline.
unfoldable pub seal_id : Bytes → Answer Bytes
seal_id value =
    if not (has_prefix value seal_format_prefix) || contains_byte newline value
    then failed invalid_seal
    else if valid_installation_id (drop 27 value)
    then done (drop 27 value)
    else failed invalid_seal

unfoldable pub parse_seal : Bytes → Answer Bytes
parse_seal contents = seal_id (trim_last newline contents)

unfoldable pub print_seal : Bytes → Bytes
print_seal i = seal_format_prefix ++ (i ++ (newline ∷ []))

-- A seal: its path is absolute or not, who must own it, the process's user, and the answers about
-- its directory.
pub record FileSeal : Type 0 where
  pub is_absolute : Bool
  pub owner_uid : ℕ
  pub euid : ℕ
  pub path_dir : Bytes
  pub path_base : Bytes
  pub place : SealDirectory

abbrev pub unsafe_seal : ℕ → Info → Bool
unsafe_seal owner i =
    i.is_symlink || not i.is_regular || not (i.perm == seal_mode) || not (owned_by owner i)

abbrev pub changed_seal : Info → Info → Bool
changed_seal before after = not (same_file before after) || not after.is_regular

-- What other processes do between the inspection of the file and its opening is `others`.
module _ (s : FileSeal) (others : Disk → Disk) where
  unfoldable pub read_seal : Answer Entry → Action (Option Bytes)
  read_seal (failed missing) = pure none
  read_seal (failed e) = fail e
  read_seal (done before) = do
    lift (reject (unsafe_seal s.owner_uid before.info) invalid_seal)
    interleave others
    after ← open_nofollow s.path_dir s.path_base
    lift (reject (changed_seal before.info after.info) invalid_seal)
    contents ← read_file after 128
    i ← lift (parse_seal contents)
    pure (some i)

  unfoldable pub load_in : Answer (Unit {0}) → Action (Option Bytes)
  load_in (failed missing) = pure none
  load_in (failed e) = fail e
  load_in (done u) = do found ← attempt (lstat s.path_dir s.path_base); read_seal found

  unfoldable pub load : Action (Option Bytes)
  load = do
    lift (reject (not s.is_absolute) invalid_seal)
    load_in (validate_existing_seal_directory s.owner_uid s.place)

abbrev pub temporary_seal_prefix : Bytes
temporary_seal_prefix = codes ".recasaos-bootstrap-seal-"

-- os.CreateTemp: names that are taken are tried again.
unfoldable pub after_temp : Action Entry → Answer Entry → Action Entry
after_temp again (done e) = pure e
after_temp again (failed exists) = again
after_temp again (failed e) = fail e

unfoldable pub create_temp : ℕ → Bytes → ℕ → Action Entry
create_temp euid h zero = fail exists
create_temp euid h (suc n) = do
  name ← draw_nonce
  created ← attempt (create_excl euid h (temporary_seal_prefix ++ name))
  after_temp (create_temp euid h n) created

unfoldable pub sync_directory : Action (Unit {0})
sync_directory = do touch; synced ← attempt touch; ignore touch; lift synced

unfoldable pub is_same_id : Bytes → Answer (Option Bytes) → Bool
is_same_id i (done (some j)) = bytes_eq j i
is_same_id i other = false

-- `others` is what other processes do before the seal is published.
module _ (s : FileSeal) (others : Disk → Disk) (i : Bytes) where
  unfoldable pub fill_seal : Entry → Action Entry
  fill_seal t = do
    secured ← chmod_file s.path_dir t seal_mode
    touch
    lift (reject (not (owned_by s.owner_uid secured.info)) invalid_seal)
    full ← write_file s.path_dir secured (print_seal i)
    touch
    touch
    pure full

  unfoldable pub after_link : Answer (Unit {0}) → Action (Unit {0})
  after_link (done u) = sync_directory
  after_link (failed e) = do
    again ← attempt (load (record s { place = refreshed s.place s.place.info }) (λ d. d))
    (if is_same_id i again then pure tt else fail e)

  unfoldable pub publish_file : Entry → Action (Unit {0})
  publish_file t = do
    full ← fill_seal t
    interleave others
    published ← attempt (link_file s.path_dir full.name s.path_base)
    after_link published

  -- The deferred calls close and remove the temporary file on every path.
  unfoldable pub publish : Action (Unit {0})
  publish = do
    lift (ensure_seal_directory s.owner_uid s.place)
    t ← create_temp s.euid s.path_dir 10000
    outcome ← attempt (publish_file t)
    ignore touch
    ignore (remove_file s.path_dir t.name)
    lift outcome

  unfoldable pub unless_sealed : Option Bytes → Action (Unit {0})
  unless_sealed none = publish
  unless_sealed (some j) = if bytes_eq j i then pure tt else fail invalid_seal

  unfoldable pub create : Action (Unit {0})
  create = do
    lift (reject (not (valid_installation_id i)) invalid_seal)
    existing ← load s (λ d. d)
    unless_sealed existing
