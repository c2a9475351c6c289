-- ===== src/ProcessLock.antt =====
-- pkg/processlock/lock.go: the lock that the daemon and the local commands share. All of them lock
-- the same file; flock is the system's and is here as what the code relies on: an exclusive lock is
-- given to an open file if no other one has it, and a closed file has none.
pub mod Exclusive
mod Tests
use re_casa_os_user_service.Prelude.{
  ℕ, Bool, none, Option, not, some, List, ◌≡◌, [], ◌∷◌, if◌then◌else◌, ◌==◌, ◌||◌, delete_where,
}
use re_casa_os_user_service.Files.{
  Answer, ◌>>=◌, ◌>>◌, reject, failed, done, Info, exists, failure, FileError, owned_by,
}

-- What the system answers: Lstat of the directory, Open with O_CREAT and O_NOFOLLOW and Stat of the
-- open file, and Chmod of it.
pub record LockFile : Type 0 where
  pub is_absolute : Bool
  pub directory : Answer Info
  pub opened : Answer Info
  pub chmod : Answer (Unit {0})

unfoldable pub check_lock_file : ℕ → LockFile → Answer (Unit {0})
check_lock_file owner f = do
  reject (not f.is_absolute) failure
  i ← f.directory
  reject (i.is_symlink || not i.is_dir) failure
  reject (not (owned_by owner i)) failure
  o ← f.opened
  reject (not o.is_regular) failure
  reject (not (owned_by owner o)) failure
  f.chmod

-- flock with LOCK_EX and LOCK_NB of the open file `fd`, where `holder` has the lock.
unfoldable pub flock : ℕ → Option ℕ → Answer ℕ × Option ℕ
flock fd none = (done fd, some fd)
flock fd (some h) = (failed exists, some h)

unfoldable pub acquire_checked : Answer (Unit {0}) → ℕ → Option ℕ → Answer ℕ × Option ℕ
acquire_checked (failed e) fd holder = (failed e, holder)
acquire_checked (done u) fd holder = flock fd holder

unfoldable pub acquire : ℕ → LockFile → ℕ → Option ℕ → Answer ℕ × Option ℕ
acquire owner f fd holder = acquire_checked (check_lock_file owner f) fd holder

-- Close, or the end of the process.
unfoldable pub close_lock : ℕ → Option ℕ → Option ℕ
close_lock fd none = none
close_lock fd (some h) = if h == fd then none else some h

-- `held` are the open files of the processes that have a Lock.
pub record Locks : Type 0 where
  pub holder : Option ℕ
  pub held : List ℕ

-- One process calls Acquire, with an open file of its own, or one that has the lock closes it.
pub data LockStep : Locks → Locks → Type 0 where
  acquired :
      {l : Locks} {h : Option ℕ} {fd' : ℕ} (owner : ℕ) (f : LockFile) (fd : ℕ)
      → acquire owner f fd l.holder ≡ (done fd', h)
      → LockStep l (record { holder = h; held = fd' ∷ l.held })
  refused :
      {l : Locks} {h : Option ℕ} {e : FileError} (owner : ℕ) (f : LockFile) (fd : ℕ)
      → acquire owner f fd l.holder ≡ (failed e, h)
      → LockStep l (record l { holder = h })
  closed :
      {l : Locks} (fd : ℕ)
      → LockStep l
          (record { holder = close_lock fd l.holder; held = delete_where (λ x. x == fd) l.held })

abbrev pub no_locks : Locks
no_locks = record { holder = none; held = [] }

-- What the processes can reach.
pub data Reachable : Locks → Type 0 where
  start : Reachable no_locks
  next : {l l' : Locks} → Reachable l → LockStep l l' → Reachable l'
