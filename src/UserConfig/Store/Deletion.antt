-- ===== src/UserConfig/Store/Deletion.antt =====
-- pkg/userconfig/store.go: Delete.
use re_casa_os_user_service.Prelude.{
  ℕ, Bytes, ◌≡◌, none, false, [], ◌∷◌, itoa, find_where, Option-cases, inl, delete_where, subst,
  List, arith, inr, refl, bytes_eq_refl,
}
use re_casa_os_user_service.Files.{done}
use re_casa_os_user_service.Files.Disk.{Disk, ◌>>◌, remove_file, lookup, without, Entry}
use re_casa_os_user_service.UserConfig.Store.{delete, filename, sync_root}
use re_casa_os_user_service.Files.Disk.Seen.{seen}
use re_casa_os_user_service.UserConfig.Place.{Place}
use re_casa_os_user_service.Files.Disk.Ensures.{
  Ensures, Ensures-bind, Ensures-call, Ensures-Leaves, Ensures-skip, Ensures-Gives, Ensures-given,
}
use re_casa_os_user_service.UserConfig.Store.Isolation.{Gives-opened, Leaves-sync_root}

lookup-without_same : (n : Bytes) (l : List Entry) → lookup n (without n l) ≡ none
unfolding lookup without find_where delete_where
lookup-without_same n [] = refl
lookup-without_same n (e ∷ l) = ground (arith, lookup-without_same n l)

Ensures-removed :
    (h n : Bytes) → Ensures (λ d. Unit {0}) (λ u d. seen h n d ≡ none) (remove_file h n)
unfolding remove_file seen
Ensures-removed h n =
    Ensures-call (λ d. Unit {0}) _ _ (λ d p. p)
      (record {
        at = λ d p u z. elim (Option-cases (lookup n (d.dirs h))) [
          | inl e ↦ absurd (ground (arith, e, z))
          | inr (x, e) ↦ ground (arith, e, bytes_eq_refl h, lookup-without_same n (d.dirs h))
        ];
      })

Gone : ℕ → Bytes → Unit {0} → Disk → Type 0
Gone i key u d = seen (itoa i) (filename key) d ≡ none

module _ (i : ℕ) (key h : Bytes) (e : h ≡ itoa i) where
  Ensures-remove : Ensures (λ d. Unit {0}) (Gone i key) (do remove_file h (filename key); sync_root)
  unfolding Gone
  Ensures-remove =
      Ensures-bind _ (λ u d. seen (itoa i) (filename key) d ≡ none) _ _ _
        (subst
          (λ x.
            Ensures (λ d. Unit {0}) (λ u d. seen x (filename key) d ≡ none)
              (remove_file h (filename key)))
          e (Ensures-removed h (filename key)))
        (λ u. Ensures-Leaves (itoa i) (filename key) none _ Leaves-sync_root)

Ensures-delete :
    (euid : ℕ) (p : Place) (i : ℕ) (key : Bytes)
    → Ensures (λ d. Unit {0}) (Gone i key) (delete euid p i key)
unfolding delete
Ensures-delete euid p i key = Ensures-skip _ _ _ (λ u.
    (Ensures-bind _ (λ h d. h ≡ itoa i) _ _ _ (Ensures-Gives _ _ _ (Gives-opened euid p i false))
      (λ h.
        Ensures-given (h ≡ itoa i) _ _ (λ e.
          Ensures-skip _ _ _ (λ file. Ensures-skip _ _ _ (λ fine. Ensures-remove i key h e))))))

-- After a Delete that reports success the configuration's file is gone.
pub delete_ok :
    (euid : ℕ) (p : Place) (i : ℕ) (key : Bytes) (d : Disk) (u : Unit {0})
    → (delete euid p i key d).0 ≡ done u
    → seen (itoa i) (filename key) (delete euid p i key d).1 ≡ none
unfolding Gone
delete_ok euid p i key d u z = (Ensures-delete euid p i key).at d tt u z
