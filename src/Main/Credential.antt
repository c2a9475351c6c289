-- ===== src/Main/Credential.antt =====
-- main.go: readCredential, which reads a secret that systemd left in a file.
pub mod Exact
use re_casa_os_user_service.Prelude.{
  ℕ, Bool, Bytes, is_empty, not, ◌||◌, leb, length, ◌+◌, contains_byte, take,
}
use re_casa_os_user_service.Files.{
  Answer, Info, ◌>>◌, reject, same_file, invalid_credential, open_to_others, ◌>>=◌, owned_by, done,
}
use re_casa_os_user_service.Bootstrap.FileSeal.{trim_last, newline}

-- What the system answers about the credentials directory and the file: Lstat of both, Open with
-- O_NOFOLLOW, Stat of the open file, and all that reading it gives.
pub record CredentialSource : Type 0 where
  pub is_absolute : Bool
  pub directory : Answer Info
  pub before : Answer Info
  pub open_file : Answer (Unit {0})
  pub after : Answer Info
  pub contents : Answer Bytes

abbrev pub maximum_credential_bytes : ℕ
maximum_credential_bytes = 1024

abbrev pub carriage_return : ℕ
carriage_return = 13

-- The tests on an Info in the order of the code.
unfoldable pub private_info : (Info → Bool) → ℕ → Info → Answer (Unit {0})
private_info wrong_kind owner i = do
  reject (i.is_symlink || wrong_kind i) invalid_credential
  reject (open_to_others i) invalid_credential
  reject (not (owned_by owner i)) invalid_credential

abbrev pub changed_file : Info → Info → Bool
changed_file before after = not (same_file before after) || not after.is_regular

abbrev pub forbidden : Bytes → Bool
forbidden s =
    is_empty s
    || not (leb (length s) maximum_credential_bytes)
    || contains_byte 0 s
    || contains_byte carriage_return s
    || contains_byte newline s

-- The secret in what the reader gave: a line ending at its end is dropped.
unfoldable pub secret_of : Bytes → Answer Bytes
secret_of s = do
  reject (not (leb (length s) (maximum_credential_bytes + 2))) invalid_credential
  reject (forbidden (trim_last carriage_return (trim_last newline s))) invalid_credential
  done (trim_last carriage_return (trim_last newline s))

unfoldable pub read_credential : ℕ → CredentialSource → Answer Bytes
read_credential owner c = do
  reject (not c.is_absolute) invalid_credential
  i ← c.directory
  private_info (λ x. not x.is_dir) owner i
  before ← c.before
  private_info (λ x. not x.is_regular) owner before
  c.open_file
  after ← c.after
  reject (changed_file before after) invalid_credential
  contents ← c.contents
  secret_of (take (maximum_credential_bytes + 3) contents)
