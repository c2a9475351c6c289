-- ===== src/Bootstrap/FileSeal/Clean.antt =====
-- pkg/userbootstrap/file_seal.go: a clean directory for a seal, and Load in it.
use re_casa_os_user_service.Prelude.{
  ℕ, refl, Option, Bytes, ◌≡◌, some, true, none, false, ◌==◌, arith, ap, subst, ==_iff, ◌∙◌, not,
  sym,
}
use re_casa_os_user_service.Files.{done, reject, invalid_seal}
use re_casa_os_user_service.Files.Disk.{Disk, Entry, pure, set_dir, placed, called}
use re_casa_os_user_service.Bootstrap.FileSeal.{FileSeal, load, load_in, read_seal}
use re_casa_os_user_service.Bootstrap.FileSeal.Temporary.{Proper}
use re_casa_os_user_service.Files.Disk.Seen.{seen, Elsewhere, seen-placed}
use re_casa_os_user_service.Files.Disk.Succeeds.{Succeeds, Succeeds-bind, Succeeds-lift}
use re_casa_os_user_service.Bootstrap.FileSeal.Live.{Ready, Succeeds-lookup, Succeeds-given}
use re_casa_os_user_service.Bootstrap.FileSeal.Directory.{
  validate_existing_seal_directory, ensure_seal_directory,
}
use re_casa_os_user_service.Bootstrap.Identifier.{valid_installation_id}

-- The directory is in order and the id is valid, for a process that owns what it makes.
pub record Sound (s : FileSeal) (i : Bytes) : Type 0 where
  pub proper : Proper s
  pub absolute : s.is_absolute ≡ true
  pub owns : s.owner_uid ≡ s.euid
  pub existing : validate_existing_seal_directory s.owner_uid s.place ≡ done tt
  pub ensured : ensure_seal_directory s.owner_uid s.place ≡ done tt
  pub valid : valid_installation_id i ≡ true

pub owned_lem :
    (owner euid : ℕ) (o : Option ℕ)
    → owner ≡ euid
    → o ≡ some euid
    → (elim o [ none ↦ false | some x ↦ x == owner ]) ≡ true
owned_lem owner euid o p q = ground (arith, p, q, (==_iff euid owner).1 (sym p))

module _ (s : FileSeal) (i : Bytes) (ok_seal : Sound s i) where
  pub kept_base :
      (e : Entry) (d : Disk)
      → Elsewhere s.path_dir s.path_base s.path_dir e.name
      → seen s.path_dir s.path_base d ≡ none
      → seen s.path_dir s.path_base (set_dir s.path_dir (placed e (d.dirs s.path_dir)) (called d))
        ≡ none
  unfolding seen
  kept_base e d o free = seen-placed s.path_dir s.path_base s.path_dir e (called d) o ∙ free

  Succeeds-load_in :
      (x : Bytes)
      → Succeeds
          (Ready s ok_seal.proper x)
          (λ v d. Ready s ok_seal.proper x d × (v ≡ none))
          (load_in s (λ d. d) (done tt))
  unfolding load_in read_seal pure
  Succeeds-load_in x = Succeeds-bind _ _ _ _ _ (Succeeds-lookup s ok_seal.proper x) (λ found.
      Succeeds-given _ (λ e.
        subst
          (λ r.
            Succeeds (Ready s ok_seal.proper x) (λ v d. Ready s ok_seal.proper x d × (v ≡ none))
              (read_seal s (λ d. d) r))
          (sym e) (record { at = λ d p. (none, refl, (p, refl)) })))

  pub Succeeds-load :
      (x : Bytes)
      → Succeeds
          (Ready s ok_seal.proper x)
          (λ v d. Ready s ok_seal.proper x d × (v ≡ none))
          (load s (λ d. d))
  unfolding load
  Succeeds-load x =
      Succeeds-bind _ _ _ _ _
        (Succeeds-lift _ _ tt (ap (λ b. reject (not b) invalid_seal) ok_seal.absolute))
        (λ u. Succeeds-given _ (λ e.
          subst
            (λ r.
              Succeeds (Ready s ok_seal.proper x) (λ v d. Ready s ok_seal.proper x d × (v ≡ none))
                (load_in s (λ d. d) r))
            (sym ok_seal.existing) (Succeeds-load_in x)))
