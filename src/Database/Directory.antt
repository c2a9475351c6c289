-- ===== src/Database/Directory.antt =====
-- pkg/sqlite/db.go: secureDirectory.
use re_casa_os_user_service.Prelude.{ℕ, Bool, ◌||◌, not}
use re_casa_os_user_service.Files.{
  Answer, ◌>>=◌, ◌>>◌, reject, Info, done, failed, or_as, unsafe_storage, owned_by, failure,
  missing,
}

-- Whether the path is blank, and what the system answers: Lstat, MkdirAll, Lstat again, and Chmod.
pub record DatabaseDirectory : Type 0 where
  pub is_blank : Bool
  pub info : Answer Info
  pub mkdir : Answer (Unit {0})
  pub info_made : Answer Info
  pub chmod : Answer (Unit {0})

unfoldable pub found_directory : Bool → DatabaseDirectory → Answer Info → Answer Info
found_directory create p (done i) = done i
found_directory create p (failed missing) = do
  reject (not create) missing
  or_as failure p.mkdir
  or_as failure p.info_made
found_directory create p (failed e) = failed failure

unfoldable pub secure_directory : ℕ → Bool → DatabaseDirectory → Answer (Unit {0})
secure_directory euid create p = do
  i ← found_directory create p p.info
  reject (i.is_symlink || not i.is_dir) unsafe_storage
  reject (not (owned_by euid i)) unsafe_storage
  or_as failure p.chmod
