-- ===== src/UserConfig/Store/Isolation.antt =====
-- pkg/userconfig/store.go: what Write and Delete do not touch, whatever fails.
use re_casa_os_user_service.Prelude.{
  ℕ, Bytes, ◌≡◌, true, false, Bool, Bool-cases, itoa, inl, arith, subst, inr, sym, has_prefix,
}
use re_casa_os_user_service.Files.{Answer, done, failed, FileError}
use re_casa_os_user_service.Files.Disk.{Disk, lift, Entry, write_file}
use re_casa_os_user_service.UserConfig.Store.{
  write, delete, install, install_filled, rename_reply, sync_root, create_temporary_file, fill,
  discard, filename, private_mode, temporary_prefix,
}
use re_casa_os_user_service.UserConfig.Store.Spares.{
  Lasting, Foreign, IsTemporary, elsewhere, Leaves-create_attempts, Gives-create_attempts, Apart,
}
use re_casa_os_user_service.UserConfig.Place.{Place, open_user_root, open_user_root_ok}
use re_casa_os_user_service.Files.Disk.Leaves.{
  Leaves, Gives, Leaves-then, Leaves-bind, Leaves-touch, Leaves-lift, Leaves-ignore, Leaves-attempt,
  Leaves-write_file, Leaves-rename_file, Leaves-remove_file, Leaves-chmod_file, Leaves-fail,
  Leaves-lstat,
}
use re_casa_os_user_service.Files.Disk.Seen.{Elsewhere, seen}

pub Gives-write_file :
    (h : Bytes) (e : Entry) (s : Bytes) → Gives (λ x. x.name ≡ e.name) (write_file h e s)
unfolding write_file
Gives-write_file h e s = record {
  at = λ d a z. elim (Bool-cases (d.fails d.calls)) [
    | inl t ↦ absurd (ground (arith, t, z))
    | inr t ↦ ground (arith, t, z)
  ];
}

module _ {h n h' : Bytes} (o : Lasting h' h n) (t : Entry)
    (q : has_prefix t.name temporary_prefix ≡ true) where
  pub Leaves-fill : (s : Bytes) → Leaves h n (fill h' t s)
  unfolding fill
  Leaves-fill s =
      Leaves-bind (λ x. x.name ≡ t.name) _ _
        (Leaves-write_file h' t s (elsewhere h' h n t.name o q)) (Gives-write_file h' t s)
        (λ x e.
          Leaves-then _ _
            (Leaves-chmod_file h' x private_mode
              (subst (λ m. Elsewhere h n h' m) (sym e) (elsewhere h' h n t.name o q)))
            (λ y. Leaves-then _ _ Leaves-touch (λ u. Leaves-touch)))

  pub Leaves-discard : (e : FileError) → Leaves h n (discard h' t e)
  unfolding discard
  Leaves-discard e =
      Leaves-then _ _ (Leaves-ignore _ (Leaves-remove_file h' t.name (elsewhere h' h n t.name o q)))
        (λ u. Leaves-fail e)

pub Leaves-sync_root : {h n : Bytes} → Leaves h n sync_root
unfolding sync_root
Leaves-sync_root = Leaves-then _ _ Leaves-touch (λ u.
    Leaves-then _ _ (Leaves-attempt _ Leaves-touch)
      (λ r. Leaves-then _ _ (Leaves-ignore _ Leaves-touch) (λ u'. Leaves-lift r)))

module _ {h n h' : Bytes} (t : Entry) (q : has_prefix t.name temporary_prefix ≡ true) (name : Bytes)
    (o : Apart h' name h n) where
  lasting : Lasting h' h n
  lasting = elim o [ inl e ↦ inl e | inr e ↦ inr e.1 ]

  Leaves-rename_reply : (r : Answer (Unit {0})) → Leaves h n (rename_reply h' t r)
  unfolding rename_reply
  Leaves-rename_reply (done u) = Leaves-sync_root
  Leaves-rename_reply (failed e) = Leaves-discard lasting t q e

  Leaves-install_filled : (r : Answer (Unit {0})) → Leaves h n (install_filled h' t name r)
  unfolding install_filled
  Leaves-install_filled (failed e) =
      Leaves-then _ _ (Leaves-ignore _ Leaves-touch) (λ u. Leaves-discard lasting t q e)
  Leaves-install_filled (done u) =
      Leaves-then _ _
        (Leaves-attempt _ (
          Leaves-rename_file h' t.name name (elsewhere h' h n t.name lasting q)
            (elim o [ inl e ↦ inl e | inr e ↦ inr e.0 ])))
        (λ r. Leaves-rename_reply r)

  Leaves-install : (s : Bytes) → Leaves h n (install h' t name s)
  unfolding install
  Leaves-install s =
      Leaves-then _ _ (Leaves-attempt _ (Leaves-fill lasting t q s)) (λ r. Leaves-install_filled r)

pub Gives-opened :
    (euid : ℕ) (p : Place) (i : ℕ) (create : Bool)
    → Gives (λ h. h ≡ itoa i) (lift (open_user_root euid p i create))
unfolding lift
Gives-opened euid p i create = record { at = λ d h z. (open_user_root_ok euid p i create h z).1 }

module _ {h n : Bytes} (i : ℕ) (key : Bytes) (o : Foreign i key h n) where
  Leaves-write : (euid : ℕ) (p : Place) (s : Bytes) → Leaves h n (write euid p i key s)
  unfolding write create_temporary_file
  Leaves-write euid p s = Leaves-then _ _ (Leaves-lift _) (λ u.
      Leaves-then _ _ (Leaves-lift _) (λ u'.
        (Leaves-bind (λ h'. h' ≡ itoa i) _ _ (Leaves-lift _) (Gives-opened euid p i true)
          (λ h' e.
            let o' = subst (λ x. Apart x (filename key) h n) (sym e) o in
            Leaves-then _ _ (Leaves-attempt _ (Leaves-lstat h' (filename key))) (λ found.
              Leaves-then _ _ (Leaves-lift _) (λ v.
                Leaves-bind (IsTemporary euid) _ _
                  (Leaves-create_attempts (elim o' [ inl z ↦ inl z | inr z ↦ inr z.1 ]) euid 16)
                  (Gives-create_attempts euid h' 16)
                  (λ t q. Leaves-install t q.0 (filename key) o' s)))))))

  Leaves-delete : (euid : ℕ) (p : Place) → Leaves h n (delete euid p i key)
  unfolding delete
  Leaves-delete euid p = Leaves-then _ _ (Leaves-lift _) (λ u.
      (Leaves-bind (λ h'. h' ≡ itoa i) _ _ (Leaves-lift _) (Gives-opened euid p i false)
        (λ h' e.
          let o' = subst (λ x. Apart x (filename key) h n) (sym e) o in
          Leaves-then _ _ (Leaves-lstat h' (filename key)) (λ file.
            Leaves-then _ _ (Leaves-lift _) (λ v.
              Leaves-then _ _
                (Leaves-remove_file h' (filename key) (elim o' [ inl z ↦ inl z | inr z ↦ inr z.0 ]))
                (λ u'. Leaves-sync_root))))))

-- Whatever fails on the way, Write and Delete of the configuration `key` of the user `i` leave every
-- other file as it is: each file of another directory, such as another user's, and each file of
-- that user under another name, but for the temporary ones.
pub changes_stay_local :
    (euid : ℕ) (p : Place) (i : ℕ) (key s h n : Bytes) (d : Disk)
    → Foreign i key h n
    → (seen h n (write euid p i key s d).1 ≡ seen h n d)
      × (seen h n (delete euid p i key d).1 ≡ seen h n d)
changes_stay_local euid p i key s h n d o =
    ((Leaves-write i key o euid p s).at d, (Leaves-delete i key o euid p).at d)
