-- ===== src/Bootstrap/FileSeal/Refine.antt =====
-- Create of pkg/userbootstrap/file_seal.go implements a register that is written once.
use re_casa_os_user_service.Bootstrap.FileSeal.{FileSeal, create, unless_sealed, publish, load}
use re_casa_os_user_service.Files.Disk.{Disk, ignore, lift, ◌>>=◌, ◌>>◌, Entry, touch, remove_file}
use re_casa_os_user_service.Prelude.{
  Bytes, ◌≡◌, not, true, arith, Option, some, bytes_eq, none, refl, ap,
}
use re_casa_os_user_service.Bootstrap.FileSeal.Temporary.{
  Proper, IsTemporarySeal, Gives-create_temp, Leaves-create_temp, beside,
}
use re_casa_os_user_service.Files.{reject, invalid_seal, FileError, done, Answer, failed}
use re_casa_os_user_service.Bootstrap.Identifier.{valid_installation_id}
use re_casa_os_user_service.Bootstrap.FileSeal.Create.{
  Neighbour, Ensures-publish_file, Advances-publish_file, Ensures-IsSealed, Told-sealed,
}
use re_casa_os_user_service.Bootstrap.FileSeal.Register.{
  value_of, ◌⟶◌, Advances, Advances-bind, Advances-then, sealed, Leaves-Advances, Advances-given,
  Advances-attempt, found_value,
}
use re_casa_os_user_service.Files.Disk.Ensures.{
  Ensures, Ensures-skip, Ensures-bind, Ensures-Gives, Ensures-lift, Ensures-weaken_pre,
  Ensures-given, Ensures-attempt, Ensures-decide,
}
use re_casa_os_user_service.Bootstrap.FileSeal.Load.{Told, rejected, Ensures-load}
use re_casa_os_user_service.Files.Disk.Leaves.{
  Leaves-lift, Leaves, Leaves-if, Leaves-then, Leaves-ignore, Leaves-pure, Leaves-touch,
  Leaves-fail, Leaves-remove_file,
}
use re_casa_os_user_service.Bootstrap.FileSeal.Idle.{Leaves-load}

tidied_failed :
    (h n : Bytes) (e : FileError) (d : Disk) (u : Unit {0})
    → ¬ (((do ignore touch; ignore (remove_file h n); lift (failed e)) d).0 ≡ done u)
unfolding ignore lift ◌>>=◌
tidied_failed h n e d u z = ground (arith, z)

accepted_id :
    (i : Bytes) (u : Unit {0})
    → reject (not (valid_installation_id i)) invalid_seal ≡ done u
    → valid_installation_id i ≡ true
accepted_id i u r = ground (arith, rejected _ invalid_seal u r)

module _ (s : FileSeal) (others : Disk → Disk) (i : Bytes) (valid : valid_installation_id i ≡ true)
    (proper : Proper s) (n : Neighbour s others) where
  -- The deferred calls leave the seal alone.
  Leaves-tidied :
      (t : Entry) (outcome : Answer (Unit {0}))
      → IsTemporarySeal t
      → Leaves s.path_dir s.path_base
          (do ignore touch; ignore (remove_file s.path_dir t.name); lift outcome)
  Leaves-tidied t outcome q = Leaves-then _ _ (Leaves-ignore _ Leaves-touch) (λ u.
      Leaves-then _ _
        (Leaves-ignore _ (Leaves-remove_file s.path_dir t.name (beside s t.name proper q.0)))
        (λ u'. Leaves-lift outcome))

  Ensures-tidied :
      (t : Entry) (outcome : Answer (Unit {0}))
      → IsTemporarySeal t
      → Ensures
          (λ d. (u : Unit {0}) → outcome ≡ done u → value_of s d ≡ sealed i)
          (λ u d. value_of s d ≡ sealed i)
          (do ignore touch; ignore (remove_file s.path_dir t.name); lift outcome)
  Ensures-tidied t (done v) q = record {
    at = λ d p u z.
        (Ensures-IsSealed s others i valid _ (Leaves-tidied t (done v) q)).at d (p v refl) u z;
  }
  Ensures-tidied t (failed e) q = record {
    at = λ d p u z. absurd (tidied_failed s.path_dir t.name e d u z);
  }

  Advances-publish : Advances s (λ d. Unit {0}) (publish s others i)
  unfolding publish
  Advances-publish = Advances-then s _ _ _ (Leaves-Advances s _ _ (Leaves-lift _)) (λ u.
      Advances-bind s _ (λ t d. IsTemporarySeal t) _ _
        (Leaves-Advances s _ _ (Leaves-create_temp s proper 10000))
        (Ensures-Gives _ IsTemporarySeal _ (Gives-create_temp s.euid s.path_dir 10000))
        (λ t. Advances-given s _ _ (λ q.
          Advances-then s _ _ _
            (Advances-attempt s _ _ (Advances-publish_file s others i valid proper n t q))
            (λ outcome. Leaves-Advances s _ _ (Leaves-tidied t outcome q)))))

  Ensures-publish : Ensures (λ d. Unit {0}) (λ u d. value_of s d ≡ sealed i) (publish s others i)
  unfolding publish
  Ensures-publish = Ensures-skip _ _ _ (λ u.
      Ensures-bind _ (λ t d. IsTemporarySeal t) _ _ _
        (Ensures-Gives _ IsTemporarySeal _ (Gives-create_temp s.euid s.path_dir 10000))
        (λ t. Ensures-given _ _ _ (λ q.
          Ensures-bind _ _ _ _ _
            (Ensures-attempt _ _ _ (Ensures-publish_file s others i valid proper n t q))
            (λ outcome. Ensures-tidied t outcome q))))

  Advances-unless_sealed :
      (v : Option Bytes) → Advances s (λ d. Unit {0}) (unless_sealed s others i v)
  unfolding unless_sealed
  Advances-unless_sealed none = Advances-publish
  Advances-unless_sealed (some j) =
      Leaves-Advances s _ _
        (Leaves-if (bytes_eq j i) _ _ (Leaves-pure tt) (Leaves-fail invalid_seal))

  Ensures-unless_sealed :
      (v : Option Bytes)
      → Ensures (Told s v) (λ u d. value_of s d ≡ sealed i) (unless_sealed s others i v)
  unfolding unless_sealed
  Ensures-unless_sealed none = Ensures-weaken_pre (λ d p. tt) _ Ensures-publish
  Ensures-unless_sealed (some j) = Ensures-decide (bytes_eq j i) invalid_seal (Told-sealed s i j)

module _ (s : FileSeal) (others : Disk → Disk) (i : Bytes) (proper : Proper s)
    (n : Neighbour s others) where
  Advances-create : Advances s (λ d. Unit {0}) (create s others i)
  unfolding create
  Advances-create =
      Advances-bind s _ (λ u d. reject (not (valid_installation_id i)) invalid_seal ≡ done u) _ _
        (Leaves-Advances s _ _ (Leaves-lift _)) (Ensures-lift _ _)
        (λ u. Advances-given s _ _ (λ r.
          Advances-then s _ _ _ (Leaves-Advances s _ _ (Leaves-load s))
            (λ v. Advances-unless_sealed s others i (accepted_id i u r) proper n v)))

  Ensures-create : Ensures (λ d. Unit {0}) (λ u d. value_of s d ≡ sealed i) (create s others i)
  unfolding create
  Ensures-create =
      Ensures-bind _ (λ u d. reject (not (valid_installation_id i)) invalid_seal ≡ done u) _ _ _
        (Ensures-lift _ _)
        (λ u. Ensures-given _ _ _ (λ r.
          Ensures-bind _ (Told s) _ _ _ (Ensures-load s)
            (λ v. Ensures-unless_sealed s others i (accepted_id i u r) proper n v)))

-- Create, whatever calls fail, keeps the value of the seal or sets its first one, and when it
-- succeeds the seal has the id it was given; a seal's name is none of a temporary file, and other
-- processes at most set a seal that was not set.
pub create_refines :
    (s : FileSeal) (others : Disk → Disk) (i : Bytes) (d : Disk)
    → Proper s
    → Neighbour s others
    → (value_of s d ⟶ value_of s (create s others i d).1)
      × ((create s others i d).0 ≡ done tt → value_of s (create s others i d).1 ≡ sealed i)
create_refines s others i d proper n =
    ((Advances-create s others i proper n).at d tt, (Ensures-create s others i proper n).at d tt tt)

-- Load changes no file of the seal's name; what it returns is the value of the seal, or the
-- directory of the seal is missing and it returns no id.
pub load_tells :
    (s : FileSeal) (d : Disk)
    → (value_of s (load s (λ d'. d') d).1 ≡ value_of s d)
      × ((v : Option Bytes) → (load s (λ d'. d') d).0 ≡ done v → Told s v (load s (λ d'. d') d).1)
unfolding value_of
load_tells s d =
    (ap (found_value s.owner_uid) ((Leaves-load s).at d), λ v z. (Ensures-load s).at d tt v z)
