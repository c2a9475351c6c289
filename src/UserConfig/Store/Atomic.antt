-- ===== src/UserConfig/Store/Atomic.antt =====
-- pkg/userconfig/store.go: Write replaces the file whole or not at all, whatever fails.
use re_casa_os_user_service.Prelude.{
  Bytes, ◌≡◌, some, false, [], ◌≢◌, inl, sym, ◌⊎◌, arith, ◌++◌, ◌∙◌, refl, inr, has_prefix, subst,
  ap, Bool-cases, if◌then◌else◌, ℕ,
}
use re_casa_os_user_service.Files.{Answer, done, failed, FileError, failure}
use re_casa_os_user_service.Files.Disk.{
  Disk, ◌>>=◌, Action, continue, fail, Entry, rename_file, chmod_file, touch, call, renamed, called,
  set_dir, without, placed, lookup,
}
use re_casa_os_user_service.UserConfig.Store.{
  install, install_filled, rename_reply, fill, private_mode, temporary_prefix, discard,
  validate_regular_file,
}
use re_casa_os_user_service.Files.Disk.Leaves.{
  Leaves, Leaves-touch, Leaves-ignore, Leaves-remove_file, Leaves-attempt,
}
use re_casa_os_user_service.Files.Disk.Seen.{seen, seen-set_dir}
use re_casa_os_user_service.Files.Disk.Ensures.{
  Ensures, Ensures-bind, Ensures-write_file, Ensures-chmod_file, Ensures-attempt,
}
use re_casa_os_user_service.UserConfig.Store.Spares.{IsTemporary, elsewhere}
use re_casa_os_user_service.UserConfig.Store.Isolation.{Leaves-sync_root, Leaves-fill}

-- The file of that name holds `s`, and is the owner's alone.
abbrev pub Holds : ℕ → Bytes → Bytes → Bytes → Disk → Type 0
Holds euid h f s d =
    (e : Entry) × (seen h f d ≡ some e)
    × (e.contents ≡ s)
    × (e.info.perm ≡ private_mode)
    × (validate_regular_file euid e.info ≡ done tt)

-- An action from the disk `d` failed and left the file `f`, or the file now holds `s`.
abbrev pub Whole : ℕ → Bytes → Bytes → Bytes → Disk → Answer (Unit {0}) × Disk → Type 0
Whole euid h f s d r =
    ((seen h f r.1 ≡ seen h f d) × ((u : Unit {0}) → r.0 ≢ done u)) ⊎ Holds euid h f s r.1

pub record Replaces (euid : ℕ) (Pre : Disk → Type 0) (h f s : Bytes) (m : Action (Unit {0}))
    : Type 0 where
  pub at : (d : Disk) → Pre d → Whole euid h f s d (m d)

module _ {euid : ℕ} {h f s : Bytes} where
  pub Replaces-fail : (Pre : Disk → Type 0) (e : FileError) → Replaces euid Pre h f s (fail e)
  unfolding fail
  Replaces-fail Pre e = record { at = λ d p. inl (refl, λ u z. absurd (ground (arith, z))) }

  pub Replaces-bind :
      {A : Type 0} (Pre : Disk → Type 0) (Mid : A → Disk → Type 0) (m : Action A)
      (g : A → Action (Unit {0}))
      → Leaves h f m
      → Ensures Pre Mid m
      → ((a : A) → Replaces euid (Mid a) h f s (g a))
      → Replaces euid Pre h f s (m >>= g)
  unfolding ◌>>=◌
  Replaces-bind Pre Mid m g kl ke kg = record {
    at = λ d p.
        elim (m d).0 as (λ r. r ≡ (m d).0 → Whole euid h f s d (continue g r (m d).1)) [
          | done a ↦ λ e. elim ((kg a).at (m d).1 (ke.at d p a (sym e))) [
            | inl (q, z) ↦ inl (q ∙ kl.at d, z)
            | inr q ↦ inr q
          ]
          | failed x ↦ λ e. inl (kl.at d, λ u z. absurd (ground (arith, z)))
        ]
          refl;
  }

  pub Replaces-then :
      {A : Type 0} (Pre : Disk → Type 0) (m : Action A) (g : A → Action (Unit {0}))
      → Leaves h f m
      → ((a : A) → Replaces euid (λ d. Unit {0}) h f s (g a))
      → Replaces euid Pre h f s (m >>= g)
  Replaces-then Pre m g kl kg =
      Replaces-bind Pre (λ a d. Unit {0}) m g kl (record { at = λ d p a z. tt }) kg

Ensures-Holds-touch :
    (euid : ℕ) (h n s : Bytes) → Ensures (Holds euid h n s) (λ u d. Holds euid h n s d) touch
Ensures-Holds-touch euid h n s = record {
  at = λ d (e, p, q, m, v) u z. (e, (Leaves-touch {h = h} {n = n}).at d ∙ p, q, m, v);
}

-- The temporary file, once written.
WrittenTo : Bytes → Entry → Bytes → Entry → Disk → Type 0
WrittenTo h t s x d = (seen h t.name d ≡ some x) × (x ≡ record t { contents = t.contents ++ s })

Ensures-secured :
    (euid : ℕ) (h : Bytes) (t : Entry) (s : Bytes) (x : Entry)
    → t.contents ≡ []
    → validate_regular_file euid t.info ≡ done tt
    → Ensures (WrittenTo h t s x) (λ y d. Holds euid h t.name s d) (chmod_file h x private_mode)
unfolding WrittenTo validate_regular_file
Ensures-secured euid h t s x q v = record {
  at = λ d p y z.
      let (a, b) = (Ensures-chmod_file h x private_mode).at d tt y z in
      (
        y,
        subst (λ n. seen h n (chmod_file h x private_mode d).1 ≡ some y) (ap (λ e. e.name) p.1) a,
        ap (λ e. e.contents) b ∙ ap (λ e. e.contents) p.1 ∙ ap (λ c. c ++ s) q,
        ap (λ e. e.info.perm) b,
        ap (λ e. validate_regular_file euid e.info) b
            ∙ ap (λ e. validate_regular_file euid (record e.info { perm = private_mode })) p.1
            ∙ v,
      );
}

Ensures-fill :
    (euid : ℕ) (h : Bytes) (t : Entry) (s : Bytes)
    → t.contents ≡ []
    → validate_regular_file euid t.info ≡ done tt
    → Ensures (λ d. Unit {0}) (λ u d. Holds euid h t.name s d) (fill h t s)
unfolding fill WrittenTo
Ensures-fill euid h t s q v =
    Ensures-bind (λ d. Unit {0}) (WrittenTo h t s) (λ u d. Holds euid h t.name s d) _ _
      (Ensures-write_file h t s)
      (λ x.
        Ensures-bind (WrittenTo h t s x) (λ y d. Holds euid h t.name s d)
          (λ u d. Holds euid h t.name s d) _ _ (Ensures-secured euid h t s x q v)
          (λ y.
            Ensures-bind (Holds euid h t.name s) (λ u d. Holds euid h t.name s d)
              (λ u d. Holds euid h t.name s d) _ _ (Ensures-Holds-touch euid h t.name s)
              (λ u. Ensures-Holds-touch euid h t.name s)))

-- A rename of a file that is there fails or shows the file under the new name.
rename_file-cases :
    (h from to : Bytes) (e : Entry) (d : Disk)
    → seen h from d ≡ some e
    → (rename_file h from to d ≡ (failed failure, called d))
      ⊎ (rename_file h from to d ≡ (
        done tt,
        set_dir h (placed (record e { name = to }) (without from (d.dirs h))) (called d),
      ))
unfolding rename_file call seen renamed
rename_file-cases h from to e d p = elim (Bool-cases (d.fails d.calls)) [
  | inl t ↦ inl (ground (arith, t))
  | inr t ↦ inr (
      ap
        (λ b.
          if b
          then (failed failure, called d)
          else renamed h from to (lookup from (d.dirs h)) (called d))
        t
      ∙ ap (λ r. renamed h from to r (called d)) p)
]

module _ (h f s : Bytes) (t : Entry) (euid : ℕ) (q : IsTemporary euid t)
    (o : has_prefix f temporary_prefix ≡ false) where
  Replaces-discard : (Pre : Disk → Type 0) (e : FileError) → Replaces euid Pre h f s (discard h t e)
  unfolding discard
  Replaces-discard Pre e =
      Replaces-then Pre _ _
        (Leaves-ignore _ (Leaves-remove_file h t.name (elsewhere h h f t.name (inr o) q.0)))
        (λ u. Replaces-fail (λ d. Unit {0}) e)

  Whole-rename_reply :
      (d : Disk)
      → Holds euid h t.name s d
      → Whole euid h f s d
          (rename_reply h t (rename_file h t.name f d).0 (rename_file h t.name f d).1)
  unfolding rename_reply seen
  Whole-rename_reply d (e, p, c, m, v) = elim (rename_file-cases h t.name f e d p) [
    | inl z ↦
        subst (λ r. Whole euid h f s d (rename_reply h t r.0 r.1)) (sym z)
          ((Replaces-discard (λ d. Unit {0}) failure).at (called d) tt)
    | inr z ↦
        subst (λ r. Whole euid h f s d (rename_reply h t r.0 r.1)) (sym z)
          (inr (
            record e { name = f },
            (Leaves-sync_root {h = h} {n = f}).at _
                ∙ seen-set_dir h (record e { name = f }) (without t.name (d.dirs h)) (called d),
            c,
            m,
            v,
          ))
  ]

  Replaces-install_filled :
      (r : Answer (Unit {0}))
      → Replaces euid
          (λ d. (u : Unit {0}) → r ≡ done u → Holds euid h t.name s d)
          h
          f
          s
          (install_filled h t f r)
  unfolding install_filled ◌>>=◌
  Replaces-install_filled (failed e) =
      Replaces-then _ _ _ (Leaves-ignore _ Leaves-touch) (λ u. Replaces-discard (λ d. Unit {0}) e)
  Replaces-install_filled (done u) = record { at = λ d k. Whole-rename_reply d (k u refl) }

  pub Replaces-install : Replaces euid (λ d. Unit {0}) h f s (install h t f s)
  unfolding install
  Replaces-install =
      Replaces-bind (λ d. Unit {0}) (λ r d. (u : Unit {0}) → r ≡ done u → Holds euid h t.name s d) _
        _ (Leaves-attempt _ (Leaves-fill (inr o) t q.0 s))
        (Ensures-attempt (λ d. Unit {0}) (λ u d. Holds euid h t.name s d) _
          (Ensures-fill euid h t s q.1 q.2))
        (λ r. Replaces-install_filled r)
