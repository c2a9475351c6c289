-- ===== src/ProcessLock/Tests.antt =====
-- Two processes that take the lock of pkg/processlock/lock.go.
use re_casa_os_user_service.Prelude.{refl, some, length, ◌≤◌, ◌∷◌, true, false, [], ◌≡◌, none}
use re_casa_os_user_service.ProcessLock.{
  Locks, Reachable, next, LockFile, acquire, start, acquire_checked, acquired, check_lock_file,
  refused, flock,
}
use re_casa_os_user_service.Files.{Info, done, failed, exists}
use re_casa_os_user_service.ProcessLock.Exclusive.{lock_exclusive}

abbrev root_directory : Info
root_directory = record {
  file_id = 1;
  is_symlink = false;
  is_regular = false;
  is_dir = true;
  perm = 493;
  owner = some 0;
  links = 2;
}

abbrev lock_file : LockFile
lock_file = record {
  is_absolute = true;
  directory = done root_directory;
  opened = done (record root_directory { is_regular = true; is_dir = false });
  chmod = done tt;
}

abbrev one_holder : Locks
one_holder = record { holder = some 5; held = 5 ∷ [] }

first_gets_it : acquire 0 lock_file 5 none ≡ (done 5, some 5)
unfolding acquire acquire_checked check_lock_file flock
first_gets_it = refl

second_is_refused : acquire 0 lock_file 6 (some 5) ≡ (failed exists, some 5)
unfolding acquire acquire_checked check_lock_file flock
second_is_refused = refl

both_tried : Reachable one_holder
both_tried =
    next (next start (acquired 0 lock_file 5 first_gets_it))
      (refused 0 lock_file 6 second_is_refused)

lock_exclusive_example : length one_holder.held ≤ 1
lock_exclusive_example = lock_exclusive one_holder both_tried
