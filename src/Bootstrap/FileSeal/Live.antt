-- ===== src/Bootstrap/FileSeal/Live.antt =====
-- pkg/userbootstrap/file_seal.go: Create succeeds where no seal is set and no call fails.
use re_casa_os_user_service.Prelude.{
  ℕ, refl, ◌≡◌, Bytes, ap, subst, none, ◌++◌, sym, some, arith, suc, ◌∙◌,
}
use re_casa_os_user_service.Files.{Answer, done, failed, missing}
use re_casa_os_user_service.Files.Disk.{
  Disk, Action, write_file, chmod_file, link_file, lstat, create_excl, call, Entry, draw_nonce,
  attempt, linked, called, set_dir, created, new_file, placed, pure,
}
use re_casa_os_user_service.Bootstrap.FileSeal.{
  FileSeal, create_temp, temporary_seal_prefix, after_temp,
}
use re_casa_os_user_service.Bootstrap.FileSeal.Temporary.{
  Proper, IsTemporarySeal, beside, temporary_seal_name,
}
use re_casa_os_user_service.Files.Disk.Succeeds.{Succeeds, Quiet, Succeeds-bind, Succeeds-attempt}
use re_casa_os_user_service.Files.Disk.Seen.{seen, seen-placed}

pub Succeeds-eq :
    {A : Type 0} {Pre : Disk → Type 0} {Post : A → Disk → Type 0} (m : Action A)
    → ((d : Disk) → Pre d → (a : A) × (d' : Disk) × (m d ≡ (done a, d')) × Post a d')
    → Succeeds Pre Post m
Succeeds-eq {A} {Pre} {Post} m k = record {
  at = λ d p.
      let (a, d', e, q) = k d p in
      (
        a,
        ap (λ (r : Answer A × Disk). r.0) e,
        subst (λ x. Post a x) (sym (ap (λ (r : Answer A × Disk). r.1) e)) q,
      );
}

pub Succeeds-given :
    {A : Type 0} {P : Type 0} {Pre : Disk → Type 0} {Post : A → Disk → Type 0} (m : Action A)
    → (P → Succeeds Pre Post m)
    → Succeeds (λ d. Pre d × P) Post m
Succeeds-given m k = record { at = λ d (p, q). (k q).at d p }

lstat_missing :
    (h n : Bytes) (d : Disk)
    → Quiet d
    → seen h n d ≡ none
    → lstat h n d ≡ (failed missing, called d)
unfolding lstat call seen
lstat_missing h n d q p = ground (arith, q d.calls, p)

create_excl_free :
    (euid : ℕ) (h n : Bytes) (d : Disk)
    → Quiet d
    → seen h n d ≡ none
    → create_excl euid h n d ≡ (
      done (new_file euid (called d) n),
      record (set_dir h (placed (new_file euid (called d) n) (d.dirs h)) (called d)) {
        next_id = suc d.next_id;
      },
    )
unfolding create_excl call created seen
create_excl_free euid h n d q p = ground (arith, q d.calls, p)

pub chmod_file-Quiet :
    (h : Bytes) (e : Entry) (mode : ℕ) (d : Disk)
    → Quiet d
    → chmod_file h e mode d ≡ (
      done (record e { info = record e.info { perm = mode } }),
      set_dir h (placed (record e { info = record e.info { perm = mode } }) (d.dirs h)) (called d),
    )
unfolding chmod_file call
chmod_file-Quiet h e mode d q = ground (arith, q d.calls)

pub write_file-Quiet :
    (h : Bytes) (e : Entry) (s : Bytes) (d : Disk)
    → Quiet d
    → write_file h e s d ≡ (
      done (record e { contents = e.contents ++ s }),
      set_dir h (placed (record e { contents = e.contents ++ s }) (d.dirs h)) (called d),
    )
unfolding write_file
write_file-Quiet h e s d q = ground (arith, q d.calls)

pub link_file-Quiet :
    (h from to : Bytes) (e : Entry) (d : Disk)
    → Quiet d
    → seen h from d ≡ some e
    → seen h to d ≡ none
    → link_file h from to d
      ≡ (done tt, set_dir h (placed (record e { name = to }) (d.dirs h)) (called d))
unfolding link_file call linked seen
link_file-Quiet h from to e d q p p' = ground (arith, q d.calls, p, p')

module _ (s : FileSeal) (proper : Proper s) where
  -- No call fails and there is no seal.
  abbrev pub Free : Disk → Type 0
  Free d = Quiet d × (seen s.path_dir s.path_base d ≡ none)

  -- The next temporary name is free too.
  abbrev pub Ready : Bytes → Disk → Type 0
  Ready x d =
      Free d × (seen s.path_dir (temporary_seal_prefix ++ x) d ≡ none) × (d.nonce d.draws ≡ done x)

  pub Succeeds-lookup :
      (x : Bytes)
      → Succeeds
          (Ready x)
          (λ r d. Ready x d × (r ≡ failed missing))
          (attempt (lstat s.path_dir s.path_base))
  unfolding attempt seen
  Succeeds-lookup x = Succeeds-eq _ (λ d ((q, f), t, n). (
    failed missing,
    called d,
    ap (λ (r : Answer Entry × Disk). (done r.0, r.1)) (lstat_missing s.path_dir s.path_base d q f),
    (((q, f), t, n), refl),
  ))

  Succeeds-draw_nonce :
      (x : Bytes)
      → Succeeds
          (Ready x)
          (λ y d. (Free d × (seen s.path_dir (temporary_seal_prefix ++ x) d ≡ none)) × (y ≡ x))
          draw_nonce
  unfolding draw_nonce seen
  Succeeds-draw_nonce x = record { at = λ d ((q, f), t, n). (x, n, (((q, f), t), refl)) }

  -- A new temporary file of the process.
  abbrev pub Made : Entry → Disk → Type 0
  Made t d = Free d × (IsTemporarySeal t × (t.info.owner ≡ some s.euid))

  Succeeds-create_excl :
      (x : Bytes)
      → Succeeds
          (λ d. Free d × (seen s.path_dir (temporary_seal_prefix ++ x) d ≡ none))
          Made
          (create_excl s.euid s.path_dir (temporary_seal_prefix ++ x))
  unfolding seen
  Succeeds-create_excl x = Succeeds-eq _ (λ d ((q, f), t).
      let n = temporary_seal_prefix ++ x in
      (
        new_file s.euid (called d) n,
        record (set_dir s.path_dir (placed (new_file s.euid (called d) n) (d.dirs s.path_dir))
            (called d)) { next_id = suc d.next_id },
        create_excl_free s.euid s.path_dir n d q t,
        (
          (
            q,
            seen-placed s.path_dir s.path_base s.path_dir (new_file s.euid (called d) n) (called d)
                  (beside s n proper (temporary_seal_name x))
                ∙ f,
          ),
          ((temporary_seal_name x, refl, refl, refl), refl),
        ),
      ))

  pub Succeeds-create_temp :
      (x : Bytes) (m : ℕ) → Succeeds (Ready x) Made (create_temp s.euid s.path_dir (suc m))
  unfolding create_temp after_temp pure
  Succeeds-create_temp x m = Succeeds-bind _ _ _ _ _ (Succeeds-draw_nonce x) (λ y.
      Succeeds-given _ (λ e.
        Succeeds-bind _ _ _ _ _
          (Succeeds-attempt _ Made _ (
            subst
              (λ z.
                Succeeds (λ d. Free d × (seen s.path_dir (temporary_seal_prefix ++ x) d ≡ none))
                  Made (create_excl s.euid s.path_dir (temporary_seal_prefix ++ z)))
              (sym e) (Succeeds-create_excl x)))
          (λ r. record {
            at = λ d (t, e', made). (
              t,
              ap (λ z. (after_temp (create_temp s.euid s.path_dir m) z d).0) e',
              subst (λ z. Made t (after_temp (create_temp s.euid s.path_dir m) z d).1) (sym e')
                  made,
            );
          })))
