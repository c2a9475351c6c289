-- ===== src/UserConfig/Store/AllOrNothing.antt =====
-- pkg/userconfig/store.go: the theorem about Write as a whole.
use re_casa_os_user_service.Prelude.{
  ℕ, Bytes, ◌≡◌, true, false, [], has_prefix, itoa, arith, ◌∷◌, subst, inr,
}
use re_casa_os_user_service.Files.{done}
use re_casa_os_user_service.Files.Disk.{Disk, Action}
use re_casa_os_user_service.UserConfig.Store.{
  write, create_temporary_file, filename, temporary_prefix,
}
use re_casa_os_user_service.Files.Disk.Ensures.{Ensures-lift, Ensures-Gives}
use re_casa_os_user_service.UserConfig.Store.Atomic.{
  Replaces, Whole, Replaces-bind, Replaces-then, Replaces-install,
}
use re_casa_os_user_service.Files.Disk.Leaves.{Leaves-lift, Leaves-attempt, Leaves-lstat}
use re_casa_os_user_service.UserConfig.Place.{Place}
use re_casa_os_user_service.UserConfig.Key.{
  custom_config_key_pattern, validate_key, validate_key_lem,
}
use re_casa_os_user_service.UserConfig.Store.Isolation.{Gives-opened}
use re_casa_os_user_service.UserConfig.Store.Spares.{
  IsTemporary, Leaves-create_attempts, Gives-create_attempts,
}

pub filename_lasts :
    (key : Bytes) (u : Unit {0})
    → validate_key key ≡ done u
    → has_prefix (filename key) temporary_prefix ≡ false
unfolding has_prefix custom_config_key_pattern
filename_lasts [] u e = ground (arith, e, validate_key_lem [])
filename_lasts (c ∷ s) u e = ground (arith, e, validate_key_lem (c ∷ s))

module _ {euid : ℕ} {h f s : Bytes} where
  Replaces-given :
      (P : Type 0) (m : Action (Unit {0}))
      → (P → Replaces euid (λ d. Unit {0}) h f s m)
      → Replaces euid (λ d. P) h f s m
  Replaces-given P m k = record { at = λ d p. (k p).at d tt }

Replaces-at :
    {euid : ℕ} {h' h f s : Bytes} (Pre : Disk → Type 0) (m : Action (Unit {0}))
    → h' ≡ h
    → Replaces euid Pre h' f s m
    → Replaces euid Pre h f s m
Replaces-at {euid} {h'} {h} {f} {s} Pre m e k = subst (λ x. Replaces euid Pre x f s m) e k

Replaces-write :
    (euid : ℕ) (p : Place) (i : ℕ) (key s : Bytes)
    → Replaces euid (λ d. Unit {0}) (itoa i) (filename key) s (write euid p i key s)
unfolding write create_temporary_file
Replaces-write euid p i key s =
    Replaces-bind _ (λ u d. validate_key key ≡ done u) _ _ (Leaves-lift _) (Ensures-lift _ _)
      (λ u. Replaces-given (validate_key key ≡ done u) _ (λ valid.
        let o = filename_lasts key u valid in
        Replaces-then _ _ _ (Leaves-lift _) (λ small.
          (Replaces-bind _ (λ h d. h ≡ itoa i) _ _ (Leaves-lift _)
            (Ensures-Gives _ _ _ (Gives-opened euid p i true))
            (λ h. Replaces-given (h ≡ itoa i) _ (λ e.
              Replaces-at (λ d. Unit {0}) _ e
                (Replaces-then _ _ _ (Leaves-attempt _ (Leaves-lstat h (filename key))) (λ found.
                  Replaces-then _ _ _ (Leaves-lift _) (λ fine.
                    Replaces-bind _ (λ t d. IsTemporary euid t) _ _
                      (Leaves-create_attempts (inr o) euid 16)
                      (Ensures-Gives _ _ _ (Gives-create_attempts euid h 16))
                      (λ t.
                        Replaces-given (IsTemporary euid t) _
                          (λ q. Replaces-install h (filename key) s t euid q o)))))))))))

-- Whichever calls fail on the way, however far a failed write gets and whatever the random source
-- gives: either Write fails and the configuration's file is what it was, be it there or not, or
-- the file now holds exactly the new contents with mode 0600. It is never empty, torn or mixed,
-- and Write never reports success without it.
pub write_all_or_nothing :
    (euid : ℕ) (p : Place) (i : ℕ) (key s : Bytes) (d : Disk)
    → Whole euid (itoa i) (filename key) s d (write euid p i key s d)
write_all_or_nothing euid p i key s d = (Replaces-write euid p i key s).at d tt
