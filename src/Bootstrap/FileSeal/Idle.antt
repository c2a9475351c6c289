-- ===== src/Bootstrap/FileSeal/Idle.antt =====
-- pkg/userbootstrap/file_seal.go: Load changes no file.
use re_casa_os_user_service.Prelude.{Bytes, none, some, refl}
use re_casa_os_user_service.Files.{Answer, done, failed, missing}
use re_casa_os_user_service.Files.Disk.{Entry, interleave}
use re_casa_os_user_service.Bootstrap.FileSeal.{FileSeal, load, read_seal, load_in}
use re_casa_os_user_service.Files.Disk.Seen.{seen}
use re_casa_os_user_service.Files.Disk.Leaves.{
  Leaves, Leaves-pure, Leaves-then, Leaves-lift, Leaves-fail, Leaves-open_nofollow, Leaves-attempt,
  Leaves-read_file, Leaves-lstat,
}
use re_casa_os_user_service.Bootstrap.FileSeal.Directory.{validate_existing_seal_directory}

module _ {h n : Bytes} (s : FileSeal) where
  Leaves-idle : Leaves h n (interleave (λ d. d))
  unfolding interleave seen
  Leaves-idle = record { at = λ d. refl }

  Leaves-read_seal : (found : Answer Entry) → Leaves h n (read_seal s (λ d. d) found)
  unfolding read_seal
  Leaves-read_seal (failed missing) = Leaves-pure none
  Leaves-read_seal (failed e) = Leaves-fail e
  Leaves-read_seal (done before) = Leaves-then _ _ (Leaves-lift _) (λ u.
      Leaves-then _ _ Leaves-idle (λ u'.
        Leaves-then _ _ (Leaves-open_nofollow s.path_dir s.path_base) (λ after.
          Leaves-then _ _ (Leaves-lift _) (λ v.
            Leaves-then _ _ (Leaves-read_file after 128)
              (λ contents. Leaves-then _ _ (Leaves-lift _) (λ i. Leaves-pure (some i)))))))

  Leaves-load_in : (found : Answer (Unit {0})) → Leaves h n (load_in s (λ d. d) found)
  unfolding load_in
  Leaves-load_in (failed missing) = Leaves-pure none
  Leaves-load_in (failed e) = Leaves-fail e
  Leaves-load_in (done u) =
      Leaves-then _ _ (Leaves-attempt _ (Leaves-lstat s.path_dir s.path_base))
        (λ found. Leaves-read_seal found)

  pub Leaves-load : Leaves h n (load s (λ d. d))
  unfolding load
  Leaves-load =
      Leaves-then _ _ (Leaves-lift _)
        (λ u. Leaves-load_in (validate_existing_seal_directory s.owner_uid s.place))
