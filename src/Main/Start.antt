-- ===== src/Main/Start.antt =====
-- main.go: what the local commands check before they open the database, and secureUserDataDirectory.
use re_casa_os_user_service.Prelude.{ℕ, Bool, Bytes, ◌||◌, not, ◌==◌}
use re_casa_os_user_service.Files.{
  Answer, ◌>>=◌, ◌>>◌, or_as, Info, failure, reject, done, failed, missing, invalid_credential,
}
use re_casa_os_user_service.Main.Credential.{CredentialSource, read_credential}
use re_casa_os_user_service.Main.Placement.{PathSystem, Components, require_seal_outside_database}

-- What a command meets: the answer of flag.Parse with the number of arguments that are left, the
-- effective uid, the process lock, whether CREDENTIALS_DIRECTORY is set, the two credentials, and the
-- database directory and the seal as absolute paths.
pub record Start : Type 0 where
  pub flags : Answer ℕ
  pub effective_uid : ℕ
  pub lock : Answer (Unit {0})
  pub has_credentials_directory : Bool
  pub username : CredentialSource
  pub password : CredentialSource
  pub paths : PathSystem
  pub database : Answer Components
  pub seal_path : Answer Components

unfoldable pub prepare : Start → Answer (Bytes × Bytes)
prepare c = do
  extra ← c.flags
  reject (not (extra == 0)) failure
  reject (not (c.effective_uid == 0)) failure
  c.lock
  reject (not c.has_credentials_directory) invalid_credential
  username ← read_credential c.effective_uid c.username
  password ← read_credential c.effective_uid c.password
  require_seal_outside_database c.paths c.database c.seal_path
  done (username, password)

-- secureUserDataDirectory: Lstat, MkdirAll and Chmod.
pub record UserData : Type 0 where
  pub info : Answer Info
  pub mkdir : Answer (Unit {0})
  pub chmod : Answer (Unit {0})

unfoldable pub found_user_data : UserData → Answer Info → Answer (Unit {0})
found_user_data u (done i) = reject (i.is_symlink || not i.is_dir) failure
found_user_data u (failed missing) = or_as failure u.mkdir
found_user_data u (failed e) = failed failure

unfoldable pub secure_user_data_directory : UserData → Answer (Unit {0})
secure_user_data_directory u = do found_user_data u u.info; or_as failure u.chmod
