-- ===== src/Bootstrap/FileSeal/Temporary.antt =====
-- The temporary file of Create in pkg/userbootstrap/file_seal.go: making it and filling it.
use re_casa_os_user_service.Prelude.{
  ℕ, Bytes, has_prefix, Option, ◌≡◌, ◌++◌, true, arith, some, false, subst, [], refl, suc, inr,
  none, zero, not, ap, sym, ◌∙◌,
}
use re_casa_os_user_service.Files.{
  Answer, done, failed, exists, done-injective, owned_by, reject, invalid_seal,
}
use re_casa_os_user_service.Files.Disk.{
  Disk, Entry, created, Action, fail, pure, create_excl, lookup, touch, chmod_file, ◌>>◌,
  write_file,
}
use re_casa_os_user_service.Bootstrap.FileSeal.{
  FileSeal, create_temp, after_temp, fill_seal, temporary_seal_prefix, unsafe_seal, seal_mode,
  print_seal,
}
use re_casa_os_user_service.Files.Disk.Seen.{seen, Elsewhere}
use re_casa_os_user_service.Files.Disk.Leaves.{
  Leaves, Gives, Leaves-fail, Leaves-pure, Leaves-then, Gives-bind, Gives-any, Leaves-draw_nonce,
  Leaves-attempt, Gives-attempt, Gives-call, Leaves-create_excl, Leaves-bind, Leaves-chmod_file,
  Leaves-touch, Leaves-lift, Leaves-write_file,
}
use re_casa_os_user_service.Files.Disk.Ensures.{
  Ensures, Ensures-bind, Ensures-weaken, Ensures-kept, Ensures-pure, Ensures-chmod_file,
  Ensures-given, Ensures-write_file, Ensures-skip, Ensures-lift,
}
use re_casa_os_user_service.Bootstrap.FileSeal.Load.{rejected}

-- A temporary file that nothing was written to yet.
abbrev pub IsTemporarySeal : Entry → Type 0
IsTemporarySeal e =
    (has_prefix e.name temporary_seal_prefix ≡ true)
    × (e.contents ≡ [])
    × (e.info.is_symlink ≡ false)
    × (e.info.is_regular ≡ true)

-- A seal's name is not a temporary one.
abbrev pub Proper : FileSeal → Type 0
Proper s = has_prefix s.path_base temporary_seal_prefix ≡ false

pub temporary_seal_name :
    (x : Bytes) → has_prefix (temporary_seal_prefix ++ x) temporary_seal_prefix ≡ true
unfolding has_prefix
temporary_seal_name x = refl

pub beside :
    (s : FileSeal) (t : Bytes)
    → Proper s
    → has_prefix t temporary_seal_prefix ≡ true
    → Elsewhere s.path_dir s.path_base s.path_dir t
beside s t q e = inr (λ z. ground (arith, q, e, z))

module _ (s : FileSeal) (proper : Proper s) where
  Leaves-after_temp :
      (again : Action Entry) (r : Answer Entry)
      → Leaves s.path_dir s.path_base again
      → Leaves s.path_dir s.path_base (after_temp again r)
  unfolding after_temp
  Leaves-after_temp again (done e) k = Leaves-pure e
  Leaves-after_temp again (failed exists) k = k
  Leaves-after_temp again (failed x) k = Leaves-fail x

  pub Leaves-create_temp : (m : ℕ) → Leaves s.path_dir s.path_base (create_temp s.euid s.path_dir m)
  unfolding create_temp
  Leaves-create_temp zero = Leaves-fail exists
  Leaves-create_temp (suc m) = Leaves-then _ _ Leaves-draw_nonce (λ name.
      Leaves-then _ _
        (Leaves-attempt _ (
          Leaves-create_excl s.euid s.path_dir (temporary_seal_prefix ++ name)
            (beside s (temporary_seal_prefix ++ name) proper (temporary_seal_name name))))
        (λ r. Leaves-after_temp (create_temp s.euid s.path_dir m) r (Leaves-create_temp m)))

Gives-after_temp :
    (again : Action Entry) (r : Answer Entry)
    → Gives IsTemporarySeal again
    → ((e : Entry) → r ≡ done e → IsTemporarySeal e)
    → Gives IsTemporarySeal (after_temp again r)
unfolding after_temp pure fail
Gives-after_temp again (done e) k q = record { at = λ d a z. q a z }
Gives-after_temp again (failed exists) k q = k
Gives-after_temp again (failed x) k q = record { at = λ d a z. ground (arith, z) }

Gives-created_seal :
    (euid : ℕ) (h n : Bytes) (r : Option Entry)
    → has_prefix n temporary_seal_prefix ≡ true
    → Gives IsTemporarySeal (created euid h n r)
unfolding created
Gives-created_seal euid h n none t = record {
  at = λ d a z. subst IsTemporarySeal (done-injective z) (t, refl, refl, refl);
}
Gives-created_seal euid h n (some x) t = record { at = λ d a z. ground (arith, z) }

pub Gives-create_temp :
    (euid : ℕ) (h : Bytes) (m : ℕ) → Gives IsTemporarySeal (create_temp euid h m)
unfolding create_temp fail create_excl
Gives-create_temp euid h zero = record { at = λ d a z. ground (arith, z) }
Gives-create_temp euid h (suc m) =
    Gives-bind (λ x. Unit {0}) IsTemporarySeal _ _ (Gives-any _)
      (λ name u.
        Gives-bind (λ r. (e : Entry) → r ≡ done e → IsTemporarySeal e) IsTemporarySeal _ _
          (Gives-attempt IsTemporarySeal _ (
            Gives-call IsTemporarySeal _ (record {
              at = λ d a z.
                  (Gives-created_seal euid h (temporary_seal_prefix ++ name)
                      (lookup (temporary_seal_prefix ++ name) (d.dirs h))
                      (temporary_seal_name name)).at
                    d a z;
            })))
          (λ r q. Gives-after_temp (create_temp euid h m) r (Gives-create_temp euid h m) q))

-- A temporary file that is ready to be linked.
abbrev pub IsFull : FileSeal → Bytes → Entry → Type 0
IsFull s i e =
    (has_prefix e.name temporary_seal_prefix ≡ true)
    × (unsafe_seal s.owner_uid e.info ≡ false)
    × (e.contents ≡ print_seal i)

Gives-chmod_file :
    (h : Bytes) (e : Entry) (mode : ℕ) → Gives (λ x. x.name ≡ e.name) (chmod_file h e mode)
unfolding chmod_file
Gives-chmod_file h e mode =
    Gives-call _ _ (record { at = λ d a z. ap Entry.name (sym (done-injective z)) })

-- The file after its mode was set and the seal was written.
full_lem :
    (s : FileSeal) (i : Bytes) (t secured full : Entry)
    → IsTemporarySeal t
    → secured ≡ record t { info = record t.info { perm = seal_mode } }
    → not (owned_by s.owner_uid secured.info) ≡ false
    → full ≡ record secured { contents = secured.contents ++ print_seal i }
    → IsFull s i full
full_lem s i t secured full (named, empty, plain, regular) p owned q = subst (IsFull s i) (sym q) (
  ap (λ e. has_prefix e.name temporary_seal_prefix) p ∙ named,
  ground (arith, owned, plain, regular, ap Entry.info p),
  ap (λ c. c ++ print_seal i) (ap Entry.contents p ∙ empty),
)

-- The directory shows the full temporary file.
abbrev pub Filled : FileSeal → Bytes → Entry → Disk → Type 0
Filled s i e d = (seen s.path_dir e.name d ≡ some e) × IsFull s i e

module _ (s : FileSeal) (others : Disk → Disk) (i : Bytes) where
  Ensures-touched : (full : Entry) → Ensures (Filled s i full) (λ u. Filled s i full) touch
  Ensures-touched full =
      Ensures-kept s.path_dir full.name (λ o. (o ≡ some full) × IsFull s i full) touch Leaves-touch

  Ensures-synced :
      (full : Entry) → Ensures (Filled s i full) (Filled s i) (do touch; touch; pure full)
  Ensures-synced full =
      Ensures-bind (Filled s i full) (λ u. Filled s i full) (Filled s i) _ _ (Ensures-touched full)
        (λ u.
          Ensures-bind (Filled s i full) (λ u'. Filled s i full) (Filled s i) _ _
            (Ensures-touched full) (λ u'. Ensures-pure (Filled s i) full))

  Ensures-written :
      (t secured : Entry)
      → IsTemporarySeal t
      → secured ≡ record t { info = record t.info { perm = seal_mode } }
      → not (owned_by s.owner_uid secured.info) ≡ false
      → Ensures (λ d. Unit {0}) (Filled s i) (write_file s.path_dir secured (print_seal i))
  Ensures-written t secured q p owned =
      Ensures-weaken _ _ (Ensures-write_file s.path_dir secured (print_seal i))
        (λ full d (shown, r). (
          subst (λ e. seen s.path_dir e.name d ≡ some full) (sym r) shown,
          full_lem s i t secured full q p owned r,
        ))

  pub Ensures-fill_seal :
      (t : Entry)
      → IsTemporarySeal t
      → Ensures (λ d. Unit {0}) (Filled s i) (fill_seal s others i t)
  unfolding fill_seal
  Ensures-fill_seal t q =
      Ensures-bind (λ d. Unit {0})
        (λ x d. x ≡ record t { info = record t.info { perm = seal_mode } }) (Filled s i) _ _
        (Ensures-weaken _ _ (Ensures-chmod_file s.path_dir t seal_mode) (λ x d p. p.1))
        (λ secured. Ensures-given _ (Filled s i) _ (λ same. Ensures-skip (Filled s i) _ _ (λ u.
          Ensures-bind (λ d. Unit {0})
            (λ v d. reject (not (owned_by s.owner_uid secured.info)) invalid_seal ≡ done v)
            (Filled s i) _ _ (Ensures-lift _ _)
            (λ v. Ensures-given _ (Filled s i) _ (λ r.
              Ensures-bind (λ d. Unit {0}) (Filled s i) (Filled s i) _ _
                (Ensures-written t secured q same (rejected _ invalid_seal v r))
                (λ full. Ensures-synced full))))))

  pub Leaves-fill_seal :
      (t : Entry)
      → Proper s
      → IsTemporarySeal t
      → Leaves s.path_dir s.path_base (fill_seal s others i t)
  unfolding fill_seal
  Leaves-fill_seal t proper q =
      Leaves-bind (λ x. x.name ≡ t.name) _ _
        (Leaves-chmod_file s.path_dir t seal_mode (beside s t.name proper q.0))
        (Gives-chmod_file s.path_dir t seal_mode)
        (λ secured e. Leaves-then _ _ Leaves-touch (λ u. Leaves-then _ _ (Leaves-lift _) (λ v.
          Leaves-then _ _
            (Leaves-write_file s.path_dir secured (print_seal i)
              (beside s secured.name proper (ap (λ n. has_prefix n temporary_seal_prefix) e ∙ q.0)))
            (λ full.
              Leaves-then _ _ Leaves-touch
                (λ u'. Leaves-then _ _ Leaves-touch (λ u''. Leaves-pure full))))))
