-- ===== src/UserConfig/Store/ReadBack.antt =====
-- pkg/userconfig/store.go: Read returns what Write stored.
use re_casa_os_user_service.Prelude.{
  ℕ, Bytes, zero, ◌≡◌, none, some, false, [], ◌∷◌, List, ap, ltb, length, if◌then◌else◌, arith, ◌∙◌,
  take, suc, refl, ==_iff, itoa, inr, inl, Bool-cases,
}
use re_casa_os_user_service.Files.{
  Answer, done, failed, Info, failure, missing, or_as, unsafe_storage, Answer-cases, reject,
  config_too_large,
}
use re_casa_os_user_service.Files.Disk.{
  pure, continue, Disk, ◌>>=◌, Action, lift, interleave, call, Entry, called, set_dir, open_file,
  lstat, placed, chmod_file, read_file,
}
use re_casa_os_user_service.UserConfig.Store.{
  read, write, validate_regular_file, open_existing_regular_file, private_mode, max_config_bytes,
  filename,
}
use re_casa_os_user_service.Files.Disk.Seen.{seen}
use re_casa_os_user_service.UserConfig.Place.{Place, open_user_root}
use re_casa_os_user_service.UserConfig.Key.{validate_key}
use re_casa_os_user_service.UserConfig.Store.AllOrNothing.{write_all_or_nothing}
use re_casa_os_user_service.UserConfig.Store.Atomic.{Holds}

take-all {ℓ} : {A : Type ℓ} (n : ℕ) (xs : List A) → ltb n (length xs) ≡ false → take (suc n) xs ≡ xs
take-all n [] h = refl
take-all zero (x ∷ []) h = ap (λ l. x ∷ l) refl
take-all zero (x ∷ y ∷ xs) h = absurd (ground (arith, h))
take-all (suc n) (x ∷ xs) h = ap (λ l. x ∷ l) (take-all n xs (ground (arith, h)))

not_a_link : (euid : ℕ) (i : Info) → validate_regular_file euid i ≡ done tt → i.is_symlink ≡ false
unfolding validate_regular_file
not_a_link euid i v = ground (arith, v)

-- What an action does from the disk `d`.
abbrev Runs : {A : Type 0} → Action A → Disk → A → Disk → Type 0
Runs m d a d' = m d ≡ (done a, d')

Runs-bind :
    {A B : Type 0} (m : Action A) (f : A → Action B) {d d' d'' : Disk} {a : A} {b : B}
    → Runs m d a d'
    → Runs (f a) d' b d''
    → Runs (m >>= f) d b d''
unfolding ◌>>=◌
Runs-bind m f e e' = ap (λ r. continue f r.0 r.1) e ∙ e'

Runs-lift : {A : Type 0} {r : Answer A} {a : A} (d : Disk) → r ≡ done a → Runs (lift r) d a d
unfolding lift
Runs-lift d e = ap (λ x. (x, d)) e

Runs-call :
    {A : Type 0} (m : Action A) (d d' : Disk) (a : A)
    → d.fails d.calls ≡ false
    → Runs m (called d) a d'
    → Runs (call m) d a d'
unfolding call
Runs-call m d d' a k e = ap (λ b. if b then (failed failure, called d) else m (called d)) k ∙ e

module _ (h name : Bytes) (e : Entry) (d : Disk) (k : d.fails d.calls ≡ false)
    (s : seen h name d ≡ some e) where
  Runs-lstat : Runs (lstat h name) d e (called d)
  unfolding lstat seen
  Runs-lstat = Runs-call _ d (called d) e k (
      ap
        (λ r. elim r as (λ x. Answer Entry × Disk) [
          | none ↦ (failed missing, called d)
          | some e ↦ (done e, called d)
        ])
        s)

  Runs-open_file : e.info.is_symlink ≡ false → Runs (open_file h name) d e (called d)
  unfolding open_file seen
  Runs-open_file l = Runs-call _ d (called d) e k (
      ap
        (λ r. elim r as (λ x. Answer Entry × Disk) [
          | none ↦ (failed missing, called d)
          | some e ↦ (if e.info.is_symlink then d.link_target e else done e, called d)
        ])
        s
      ∙ ap (λ b. (if b then d.link_target e else done e, called d)) l)

module _ (euid : ℕ) (h name : Bytes) (e : Entry) (d : Disk)
    (v : validate_regular_file euid e.info ≡ done tt) (k : (n : ℕ) → d.fails n ≡ false)
    (s : seen h name d ≡ some e) where
  opened : Entry
  opened = record e { info = record e.info { perm = private_mode } }

  after_open : Disk
  after_open = set_dir h (placed opened (d.dirs h)) (called (called (called d)))

  Runs-open_existing : Runs (open_existing_regular_file euid (λ x. x) h name) d opened after_open
  unfolding open_existing_regular_file interleave chmod_file seen opened after_open
  Runs-open_existing = Runs-bind _ _ (Runs-lstat h name e d (k d.calls) s) (
      Runs-bind _ _ (Runs-lift (called d) v) (
        Runs-bind _ _ refl (
          Runs-bind _ _
            (Runs-open_file h name e (called d) (k (suc d.calls)) s (not_a_link euid e.info v))
            (Runs-bind _ _ (Runs-lift (called (called d)) (ap (or_as unsafe_storage) v)) (
              Runs-bind _ _
                (Runs-lift (called (called d))
                  (ground (arith, (==_iff e.info.file_id e.info.file_id).1 refl)))
                (Runs-call _ (called (called d)) _ _ (k (suc (suc d.calls))) refl))))))

-- Beneath an opened directory, Read returns a sound file of at most 1 MiB.
Runs-read :
    (euid : ℕ) (p : Place) (i : ℕ) (key s : Bytes) (d : Disk)
    → validate_key key ≡ done tt
    → open_user_root euid p i false ≡ done (itoa i)
    → ltb max_config_bytes (length s) ≡ false
    → ((n : ℕ) → d.fails n ≡ false)
    → Holds euid (itoa i) (filename key) s d
    → (d' : Disk) × Runs (read euid (λ x. x) p i key) d s d'
unfolding read read_file pure opened after_open
Runs-read euid p i key s d valid place small k (e, found, same, m, v) =
    let d' = after_open euid (itoa i) (filename key) e d v k found in
    let contents =
      ap (λ c. take (suc max_config_bytes) c) same ∙ take-all max_config_bytes s small in
    (
      called d',
      Runs-bind _ _ (Runs-lift d valid) (
          Runs-bind _ _ (Runs-lift d place) (
            Runs-bind _ _ (Runs-open_existing euid (itoa i) (filename key) e d v k found) (
              Runs-bind _ _
                (Runs-call _ d' (called d') s (k (suc (suc (suc d.calls))))
                  (ap (λ c. (done c, called d')) contents))
                (Runs-bind _ _ (Runs-lift (called d') (ap (λ b. reject b config_too_large) small))
                  refl)))),
    )

-- What Write checks before anything else.
written_checks :
    (euid : ℕ) (p : Place) (i : ℕ) (key s : Bytes) (d : Disk) (u : Unit {0})
    → (write euid p i key s d).0 ≡ done u
    → (validate_key key ≡ done tt) × (ltb max_config_bytes (length s) ≡ false)
unfolding write ◌>>=◌ lift
written_checks euid p i key s d u z = elim (Answer-cases (validate_key key)) [
  | inr (x, e) ↦ absurd (ground (arith, e, z))
  | inl (x, e) ↦ elim (Bool-cases (ltb max_config_bytes (length s))) [
    | inl t ↦ absurd (ground (arith, e, t, z))
    | inr t ↦ (e, t)
  ]
]

-- After a Write that reports success, Read of the same user and key returns exactly what was written,
-- if the user's directory can be opened, no call fails any more and nobody changes the file
-- meanwhile: the new file passes every check of Read.
pub read-write :
    (euid : ℕ) (p q : Place) (i : ℕ) (key s : Bytes) (d : Disk) (u : Unit {0})
    → (write euid p i key s d).0 ≡ done u
    → open_user_root euid q i false ≡ done (itoa i)
    → ((n : ℕ) → (write euid p i key s d).1.fails n ≡ false)
    → (read euid (λ x. x) q i key (write euid p i key s d).1).0 ≡ done s
read-write euid p q i key s d u z place k =
    let (valid, small) = written_checks euid p i key s d u z in
    elim (write_all_or_nothing euid p i key s d) [
      | inl r ↦ absurd (r.1 u z)
      | inr r ↦
          ap (λ x. x.0)
            (Runs-read euid q i key s (write euid p i key s d).1 valid place small k r).1
    ]
