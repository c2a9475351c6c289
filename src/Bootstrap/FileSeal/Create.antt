-- ===== src/Bootstrap/FileSeal/Create.antt =====
-- Create of pkg/userbootstrap/file_seal.go moves the register of the seal along.
use re_casa_os_user_service.Bootstrap.FileSeal.{
  FileSeal, temporary_seal_prefix, after_link, sync_directory, parse_seal, is_same_id, publish_file,
  load,
}
use re_casa_os_user_service.Files.Disk.{
  Disk, Entry, attempt, Action, link_file, pure, interleave, fail,
}
use re_casa_os_user_service.Prelude.{
  Bytes, ◌≡◌, true, has_prefix, some, ap, inl, take, ◌∙◌, subst, sym, Option, inr, refl,
  if◌then◌else◌, bytes_eq, arith, bytes_eq→eq, none,
}
use re_casa_os_user_service.Bootstrap.FileSeal.Register.{
  value_of, ◌⟶◌, sealed, found_value, Advances, absent, set_once, Advances-bind, stay,
  Leaves-Advances, Advances-then,
}
use re_casa_os_user_service.Bootstrap.Identifier.{valid_installation_id}
use re_casa_os_user_service.Bootstrap.FileSeal.Temporary.{
  IsFull, Filled, Proper, IsTemporarySeal, Ensures-fill_seal, Leaves-fill_seal,
}
use re_casa_os_user_service.Files.Disk.Ensures.{
  Ensures, Ensures-kept, Ensures-attempt, Ensures-bind, Ensures-weaken_pre, Ensures-decide,
}
use re_casa_os_user_service.Files.Disk.Leaves.{
  Leaves, Leaves-then, Leaves-touch, Leaves-attempt, Leaves-ignore, Leaves-lift, Leaves-if,
  Leaves-pure, Leaves-fail,
}
use re_casa_os_user_service.Files.{Answer, done, failed, Answer-cases, FileError}
use re_casa_os_user_service.Files.Disk.Seen.{seen}
use re_casa_os_user_service.Bootstrap.FileSeal.Load.{sound_value, Told, Ensures-load}
use re_casa_os_user_service.Bootstrap.FileSeal.Publish.{link_file_lem}
use re_casa_os_user_service.Bootstrap.FileSeal.Idle.{Leaves-load}
use re_casa_os_user_service.Bootstrap.FileSeal.Format.{take-print_seal, parse_seal-print_seal}
use re_casa_os_user_service.Bootstrap.FileSeal.Directory.{refreshed}

-- What the other processes of the system may do to the seal's directory: set a seal that is not
-- set yet, and nothing to the temporary files.
pub record Neighbour (s : FileSeal) (others : Disk → Disk) : Type 0 where
  pub advances : (d : Disk) → value_of s d ⟶ value_of s (others d)
  pub leaves :
      (n : Bytes)
      → has_prefix n temporary_seal_prefix ≡ true
      → (d : Disk) → seen s.path_dir n (others d) ≡ seen s.path_dir n d

-- A full file that is named as the seal is the seal.
full_value :
    (s : FileSeal) (i : Bytes) (e : Entry) (d : Disk)
    → valid_installation_id i ≡ true
    → IsFull s i e
    → seen s.path_dir s.path_base d ≡ some (record e { name = s.path_base })
    → value_of s d ≡ sealed i
full_value s i e d v (named, safe, full) p =
    sound_value s d (record e { name = s.path_base }) i p safe
      (ap (λ c. parse_seal (take 128 c)) full
        ∙ ap parse_seal (take-print_seal i v)
        ∙ parse_seal-print_seal i v)

-- The seal as a Load meets it after the directory was made.
abbrev after_making : FileSeal → FileSeal
after_making s = record s { place = refreshed s.place s.place.info }

-- A seal that Load tells is the one of the disk.
pub Told-sealed :
    (s : FileSeal) (i j : Bytes) (d : Disk)
    → Told s (some j) d
    → bytes_eq j i ≡ true
    → value_of s d ≡ sealed i
unfolding Told
Told-sealed s i j d (inl t) q = t ∙ ap sealed (bytes_eq→eq j i q)
Told-sealed s i j d (inr (n, m)) q = absurd (ground (arith, n))

module _ (s : FileSeal) (others : Disk → Disk) (i : Bytes)
    (valid : valid_installation_id i ≡ true) where
  -- The directory has the seal of this id.
  abbrev pub IsSealed : Disk → Type 0
  IsSealed d = value_of s d ≡ sealed i

  pub Ensures-IsSealed :
      {A : Type 0} (m : Action A)
      → Leaves s.path_dir s.path_base m
      → Ensures IsSealed (λ a. IsSealed) m
  unfolding value_of
  Ensures-IsSealed m k =
      Ensures-kept s.path_dir s.path_base (λ o. found_value s.owner_uid o ≡ sealed i) m k

  -- The link publishes the seal, or changes nothing.
  Advances-link :
      (e : Entry) → Advances s (Filled s i e) (attempt (link_file s.path_dir e.name s.path_base))
  unfolding attempt value_of found_value
  Advances-link e = record {
    at = λ d (shown, full). elim (Answer-cases (link_file s.path_dir e.name s.path_base d).0) [
      | inl (u, z) ↦
          let (before, after) = (link_file_lem s.path_dir e.name s.path_base e d shown).0 u z in
          subst (λ v. v ⟶ value_of s (link_file s.path_dir e.name s.path_base d).1)
            (sym (ap (found_value s.owner_uid) before))
            (subst (λ w. absent ⟶ w)
              (sym
                (full_value s i e (link_file s.path_dir e.name s.path_base d).1 valid full after))
              set_once)
      | inr (x, z) ↦
          subst (λ o. value_of s d ⟶ found_value s.owner_uid o)
            (sym ((link_file_lem s.path_dir e.name s.path_base e d shown).1 x z)) stay
    ];
  }

  Ensures-link :
      (e : Entry)
      → Ensures
          (Filled s i e)
          (λ r d. (u : Unit {0}) → r ≡ done u → IsSealed d)
          (attempt (link_file s.path_dir e.name s.path_base))
  Ensures-link e = Ensures-attempt _ _ _ (record {
    at = λ d (shown, full) u z.
        full_value s i e (link_file s.path_dir e.name s.path_base d).1 valid full
          ((link_file_lem s.path_dir e.name s.path_base e d shown).0 u z).1;
  })

  Leaves-sync_directory : {h n : Bytes} → Leaves h n sync_directory
  unfolding sync_directory
  Leaves-sync_directory = Leaves-then _ _ Leaves-touch (λ u.
      Leaves-then _ _ (Leaves-attempt _ Leaves-touch)
        (λ synced. Leaves-then _ _ (Leaves-ignore _ Leaves-touch) (λ u'. Leaves-lift synced)))

  Leaves-after_link : {h n : Bytes} (r : Answer (Unit {0})) → Leaves h n (after_link s others i r)
  unfolding after_link
  Leaves-after_link (done u) = Leaves-sync_directory
  Leaves-after_link (failed e) =
      Leaves-then _ _ (Leaves-attempt _ (Leaves-load (after_making s)))
        (λ again. Leaves-if (is_same_id i again) _ _ (Leaves-pure tt) (Leaves-fail e))

  -- Another Create was first, with the same id or not.
  Ensures-same :
      (again : Answer (Option Bytes)) (e : FileError)
      → Ensures
          (λ d. (v : Option Bytes) → again ≡ done v → Told (after_making s) v d)
          (λ u. IsSealed)
          (if is_same_id i again then pure tt else fail e)
  unfolding is_same_id fail value_of
  Ensures-same (done (some j)) e =
      Ensures-decide (bytes_eq j i) e
        (λ d p q. Told-sealed (after_making s) i j d (p (some j) refl) q)
  Ensures-same (done none) e = record { at = λ d p u z. absurd (ground (arith, z)) }
  Ensures-same (failed x) e = record { at = λ d p u z. absurd (ground (arith, z)) }

  Ensures-after_link :
      (r : Answer (Unit {0}))
      → Ensures
          (λ d. (u : Unit {0}) → r ≡ done u → IsSealed d)
          (λ u. IsSealed)
          (after_link s others i r)
  unfolding after_link
  Ensures-after_link (done u) = record {
    at = λ d p a z. (Ensures-IsSealed sync_directory Leaves-sync_directory).at d (p u refl) a z;
  }
  Ensures-after_link (failed e) =
      Ensures-bind _ (λ again d. (v : Option Bytes) → again ≡ done v → Told (after_making s) v d)
        (λ u. IsSealed) _ _
        (Ensures-weaken_pre (λ d p. tt) _
          (Ensures-attempt (λ d. Unit {0}) (Told (after_making s)) (load (after_making s) (λ d. d))
            (Ensures-load (after_making s))))
        (λ again. Ensures-same again e)

  module _ (proper : Proper s) (n : Neighbour s others) where
    pub Advances-publish_file :
        (t : Entry) → IsTemporarySeal t → Advances s (λ d. Unit {0}) (publish_file s others i t)
    unfolding publish_file interleave
    Advances-publish_file t q =
        Advances-bind s (λ d. Unit {0}) (Filled s i) _ _
          (Leaves-Advances s _ _ (Leaves-fill_seal s others i t proper q))
          (Ensures-fill_seal s others i t q)
          (λ full.
            Advances-bind s (Filled s i full) (λ u. Filled s i full) _ _
              (record { at = λ d p. n.advances d })
              (record { at = λ d (shown, f) u z. (n.leaves full.name f.0 d ∙ shown, f) })
              (λ u.
                Advances-then s (Filled s i full) _ _ (Advances-link full)
                  (λ r. Leaves-Advances s _ _ (Leaves-after_link r))))

    pub Ensures-publish_file :
        (t : Entry)
        → IsTemporarySeal t
        → Ensures (λ d. Unit {0}) (λ u. IsSealed) (publish_file s others i t)
    unfolding publish_file interleave
    Ensures-publish_file t q =
        Ensures-bind (λ d. Unit {0}) (Filled s i) (λ u. IsSealed) _ _
          (Ensures-fill_seal s others i t q)
          (λ full.
            Ensures-bind (Filled s i full) (λ u. Filled s i full) (λ u. IsSealed) _ _
              (record { at = λ d (shown, f) u z. (n.leaves full.name f.0 d ∙ shown, f) })
              (λ u.
                Ensures-bind (Filled s i full) _ (λ u. IsSealed) _ _ (Ensures-link full)
                  (λ r. Ensures-after_link r)))
