-- ===== src/Bootstrap/FileSeal/Tests.antt =====
-- Runs of pkg/userbootstrap/file_seal.go on a small disk.
use re_casa_os_user_service.Bootstrap.FileSeal.{FileSeal, create, parse_seal, print_seal}
use re_casa_os_user_service.Bootstrap.FileSeal.Register.{value_of, stay, ◌⟶◌, sealed}
use re_casa_os_user_service.Prelude.{
  has_prefix, true, Bytes, ◌≡◌, codes, false, [], ◌∷◌, some, refl, find_where,
}
use re_casa_os_user_service.Files.{Info, done, failed, missing}
use re_casa_os_user_service.Bootstrap.FileSeal.Create.{Neighbour}
use re_casa_os_user_service.Files.Disk.{Disk, lookup}
use re_casa_os_user_service.Bootstrap.FileSeal.Directory.{
  SealDirectory, validate_existing_seal_directory, reject_symlink_ancestors, ancestor,
  unsafe_seal_directory, ensure_seal_directory, found_or_made,
}
use re_casa_os_user_service.Bootstrap.FileSeal.Refine.{create_refines}
use re_casa_os_user_service.Bootstrap.Identifier.{valid_installation_id, all_hex, is_hex}
use re_casa_os_user_service.Bootstrap.FileSeal.Format.{parse_seal-print_seal}
use re_casa_os_user_service.Bootstrap.FileSeal.Clean.{Sound}
use re_casa_os_user_service.Bootstrap.FileSeal.Succeeds.{create_succeeds}
use re_casa_os_user_service.Files.Disk.Seen.{seen}
use re_casa_os_user_service.Bootstrap.FileSeal.Live.{Ready}

abbrev owned_directory : Info
owned_directory = record {
  file_id = 1;
  is_symlink = false;
  is_regular = false;
  is_dir = true;
  perm = 448;
  owner = some 0;
  links = 2;
}

abbrev seal_directory : SealDirectory
seal_directory = record {
  ancestors = (done owned_directory, done tt) ∷ [];
  info = done owned_directory;
  mkdir = done tt;
  ancestors_made = [];
  info_made = failed missing;
}

abbrev seal : FileSeal
seal = record {
  is_absolute = true;
  owner_uid = 0;
  euid = 0;
  path_dir = codes "etc";
  path_base = codes "user-bootstrap.seal";
  place = seal_directory;
}

abbrev empty_disk : Disk
empty_disk = record {
  dirs = λ h. [];
  next_id = 7;
  fails = λ n. false;
  calls = 0;
  torn = λ s. [];
  link_target = λ e. failed missing;
  nonce = λ n. done (codes "123");
  draws = 0;
}

abbrev installation : Bytes
installation = codes "01234567-89ab-4def-8123-456789abcdef"

quiet : Neighbour seal (λ d. d)
quiet = record { advances = λ d. stay; leaves = λ n p d. refl }

create_refines_example :
    (value_of seal empty_disk ⟶ value_of seal (create seal (λ d. d) installation empty_disk).1)
    × ((create seal (λ d. d) installation empty_disk).0 ≡ done tt
        → value_of seal (create seal (λ d. d) installation empty_disk).1 ≡ sealed installation)
unfolding has_prefix
create_refines_example = create_refines seal (λ d. d) installation empty_disk refl quiet

parse_seal-print_seal_example : parse_seal (print_seal installation) ≡ done installation
unfolding valid_installation_id all_hex is_hex
parse_seal-print_seal_example = parse_seal-print_seal installation refl

sound_seal : Sound seal installation
unfolding has_prefix valid_installation_id all_hex is_hex validate_existing_seal_directory
    ensure_seal_directory reject_symlink_ancestors ancestor unsafe_seal_directory found_or_made
sound_seal = record {
  proper = refl;
  absolute = refl;
  owns = refl;
  existing = refl;
  ensured = refl;
  valid = refl;
}

Ready-empty_disk : Ready seal sound_seal.proper (codes "123") empty_disk
unfolding seen lookup find_where
Ready-empty_disk = (((λ n. refl), refl), refl, refl)

create_succeeds_example :
    ((create seal (λ d'. d') installation empty_disk).0 ≡ done tt)
    × (value_of seal (create seal (λ d'. d') installation empty_disk).1 ≡ sealed installation)
create_succeeds_example =
    create_succeeds seal installation (codes "123") empty_disk sound_seal Ready-empty_disk
