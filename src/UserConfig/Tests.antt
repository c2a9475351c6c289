-- ===== src/UserConfig/Tests.antt =====
-- Runs of pkg/userconfig/store.go on a small disk.
use re_casa_os_user_service.Prelude.{
  ℕ, codes, ◌≡◌, refl, some, [], true, false, itoa, ◌<◌, if◌then◌else◌, inl, arith, ◌&&◌, not,
  find_where, bytes_eq,
}
use re_casa_os_user_service.Files.{done, failed, Info, exists, missing, invalid_key}
use re_casa_os_user_service.Files.Disk.{
  ◌>>=◌, Disk, lstat, call, lookup, draw_nonce, create_excl, created, write_file, chmod_file, touch,
  rename_file, renamed, placed,
}
use re_casa_os_user_service.UserConfig.Store.{
  write, read, delete, filename, create_temporary_file, replaceable, create_attempts, after_create,
  install, install_filled, fill, rename_reply, sync_root,
}
use re_casa_os_user_service.Files.Disk.Seen.{seen}
use re_casa_os_user_service.UserConfig.Place.{
  Place, open_user_root, unsafe_root, changed_root, unsafe_user, changed_user, open_user_root_ok,
  open_data_root, open_user_directory, IsOwnDirectory, IsPrivatelyWritable, IsOpened,
}
use re_casa_os_user_service.UserConfig.Store.Atomic.{Whole}
use re_casa_os_user_service.UserConfig.Key.{
  validate_key, custom_config_key_pattern, has_parent, validate_key_lem, has_separator,
  allowed_from,
}
use re_casa_os_user_service.UserConfig.Store.ReadBack.{read-write}
use re_casa_os_user_service.UserConfig.Store.Spares.{Foreign}
use re_casa_os_user_service.UserConfig.Store.AllOrNothing.{write_all_or_nothing}
use re_casa_os_user_service.UserConfig.Store.Isolation.{changes_stay_local}

abbrev directory : ℕ → Info
directory i = record {
  file_id = i;
  is_symlink = false;
  is_regular = false;
  is_dir = true;
  perm = 448;
  owner = some 7;
  links = 2;
}

abbrev pub place : Place
place = record {
  is_blank = false;
  is_absolute = true;
  root = done (directory 1);
  open_root = done tt;
  opened_root = done (directory 1);
  mkdir = failed exists;
  user = done (directory 2);
  open_user = done tt;
  opened_user = done (directory 2);
  handle = done tt;
  chmod = done tt;
  close = done tt;
}

abbrev pub disk : Disk
disk = record {
  dirs = λ h. [];
  next_id = 10;
  fails = λ n. false;
  calls = 0;
  torn = λ s. [];
  link_target = λ e. failed missing;
  nonce = λ n. done (codes "00ff");
  draws = 0;
}

opens : open_user_root 7 place 3 false ≡ done (codes "3")
unfolding open_user_root open_data_root unsafe_root changed_root open_user_directory unsafe_user
    changed_user itoa create_temporary_file
opens = refl

open_user_root_ok_example :
    (0 < 3)
    × (codes "3" ≡ itoa 3)
    × ((root : Info) × (place.root ≡ done root)
        × IsOwnDirectory 7 root
        × IsPrivatelyWritable root
        × (opened : Info) × (place.opened_root ≡ done opened)
        × IsOpened 7 root opened
        × IsPrivatelyWritable opened)
    × ((user : Info) × (place.user ≡ done user)
        × IsOwnDirectory 7 user
        × (opened : Info) × (place.opened_user ≡ done opened)
        × IsOpened 7 user opened
        × (place.chmod ≡ done tt))
open_user_root_ok_example = open_user_root_ok 7 place 3 false (codes "3") opens

validate_key_lem_example : validate_key (codes "a..b") ≡ (
    if custom_config_key_pattern (codes "a..b") && not (has_parent (codes "a..b"))
    then done tt
    else failed invalid_key)
validate_key_lem_example = validate_key_lem (codes "a..b")

abbrev after_write : Disk
after_write = (write 7 place 3 (codes "system") (codes "{}") disk).1

writes : (write 7 place 3 (codes "system") (codes "{}") disk).0 ≡ done tt
unfolding write ◌>>=◌ validate_key has_parent has_separator allowed_from open_user_root
    open_data_root unsafe_root changed_root open_user_directory unsafe_user changed_user replaceable
    lstat call lookup find_where create_temporary_file create_attempts draw_nonce after_create
    create_excl created install install_filled fill write_file chmod_file touch rename_reply
    rename_file renamed bytes_eq itoa placed sync_root
writes = refl

never_fails : (n : ℕ) → after_write.fails n ≡ false
unfolding write ◌>>=◌ validate_key has_parent has_separator allowed_from open_user_root
    open_data_root unsafe_root changed_root open_user_directory unsafe_user changed_user replaceable
    lstat call lookup find_where create_temporary_file create_attempts draw_nonce after_create
    create_excl created install install_filled fill write_file chmod_file touch rename_reply
    rename_file renamed bytes_eq itoa placed sync_root
never_fails n = refl

opens_itoa : open_user_root 7 place 3 false ≡ done (itoa 3)
unfolding open_user_root write ◌>>=◌ validate_key has_parent has_separator allowed_from
    open_data_root unsafe_root changed_root open_user_directory unsafe_user changed_user replaceable
    lstat call lookup find_where create_temporary_file
opens_itoa = refl

read-write_example : (read 7 (λ x. x) place 3 (codes "system") after_write).0 ≡ done (codes "{}")
read-write_example =
    read-write 7 place place 3 (codes "system") (codes "{}") disk tt writes opens_itoa never_fails

write_all_or_nothing_example :
    Whole 7
      (itoa 3)
      (filename (codes "system"))
      (codes "{}")
      disk
      (write 7 place 3 (codes "system") (codes "{}") disk)
write_all_or_nothing_example = write_all_or_nothing 7 place 3 (codes "system") (codes "{}") disk

other_directory : Foreign 3 (codes "system") (codes "4") (codes "system.json")
unfolding itoa
other_directory = inl (λ e. ground (arith, e))

changes_stay_local_example :
    (seen (codes "4") (codes "system.json") after_write
      ≡ seen (codes "4") (codes "system.json") disk)
    × (seen (codes "4") (codes "system.json") (delete 7 place 3 (codes "system") disk).1
        ≡ seen (codes "4") (codes "system.json") disk)
changes_stay_local_example =
    changes_stay_local 7 place 3 (codes "system") (codes "{}") (codes "4") (codes "system.json")
      disk other_directory
