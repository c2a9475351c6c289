-- ===== src/Bootstrap/FileSeal/Load.antt =====
-- pkg/userbootstrap/file_seal.go: Load changes nothing and tells the value of the register.
use re_casa_os_user_service.Prelude.{
  ℕ, Bytes, ◌≡◌, none, some, refl, false, Bool, Option, ◌∙◌, arith, take, ap, if◌then◌else◌, ◌⊎◌,
  inl, inr, sym,
}
use re_casa_os_user_service.Files.{
  Answer, done, failed, missing, FileError, reject, invalid_seal, done-injective,
}
use re_casa_os_user_service.Files.Disk.{
  Disk, Entry, interleave, lift, pure, read_file, open_nofollow, call, Action, lstat, attempt, fail,
  ◌>>=◌,
}
use re_casa_os_user_service.Bootstrap.FileSeal.{
  FileSeal, load, load_in, read_seal, unsafe_seal, parse_seal, changed_seal,
}
use re_casa_os_user_service.Files.Disk.Seen.{seen}
use re_casa_os_user_service.Files.Disk.Ensures.{Ensures, Ensures-bind, Ensures-skip}
use re_casa_os_user_service.Bootstrap.FileSeal.Register.{
  value_of, found_value, Register, entry_value, absent, sealed, unreadable, sealed_by,
}
use re_casa_os_user_service.Files.Disk.Leaves.{Leaves-open_nofollow, Leaves-read_file, Leaves-lstat}
use re_casa_os_user_service.Bootstrap.FileSeal.Directory.{validate_existing_seal_directory}

-- What Load returns, as a value of the register.
abbrev pub told : Option Bytes → Register
told none = absent
told (some i) = sealed i

pub Ensures-lift_kept :
    {A : Type 0} (Pre : Disk → Type 0) (r : Answer A)
    → Ensures Pre (λ a d. Pre d × (r ≡ done a)) (lift r)
unfolding lift
Ensures-lift_kept Pre r = record { at = λ d p a z. (p, z) }

Ensures-idle : (Pre : Disk → Type 0) → Ensures Pre (λ u d. Pre d) (interleave (λ d. d))
unfolding interleave
Ensures-idle Pre = record { at = λ d p u z. p }

opened_same :
    (h n : Bytes) (b a : Entry) (d : Disk)
    → seen h n d ≡ some b
    → (open_nofollow h n d).0 ≡ done a
    → a ≡ b
unfolding open_nofollow call seen
opened_same h n b a d p z = ground (arith, p, z)

Ensures-open_nofollow :
    (h n : Bytes) (b : Entry)
    → Ensures
        (λ d. seen h n d ≡ some b)
        (λ a d. (seen h n d ≡ some b) × (a ≡ b))
        (open_nofollow h n)
Ensures-open_nofollow h n b = record {
  at = λ d p a z. ((Leaves-open_nofollow h n).at d ∙ p, opened_same h n b a d p z);
}

read_gives :
    (e : Entry) (k : ℕ) (c : Bytes) (d : Disk)
    → (read_file e k d).0 ≡ done c
    → c ≡ take k e.contents
unfolding read_file call pure
read_gives e k c d z = ground (arith, z)

pub rejected : (b : Bool) (e : FileError) (u : Unit {0}) → reject b e ≡ done u → b ≡ false
rejected b e u z = ground (arith, z)

module _ (s : FileSeal) where
  -- A sound file that parses is the value of the register.
  pub sound_value :
      (d : Disk) (b : Entry) (i : Bytes)
      → seen s.path_dir s.path_base d ≡ some b
      → unsafe_seal s.owner_uid b.info ≡ false
      → parse_seal (take 128 b.contents) ≡ done i
      → value_of s d ≡ sealed i
  unfolding value_of found_value entry_value
  sound_value d b i p safe q =
      ap (found_value s.owner_uid) p
      ∙ ap (λ x. if x then unreadable else sealed_by (parse_seal (take 128 b.contents))) safe
      ∙ ap sealed_by q

  Tells : Option Bytes → Disk → Type 0
  Tells v d = value_of s d ≡ told v

pub Ensures-fact :
    {A : Type 0} (Pre : Disk → Type 0) (P : Type 0) (Post : A → Disk → Type 0) (m : Action A)
    → (P → Ensures Pre Post m)
    → Ensures (λ d. Pre d × P) Post m
Ensures-fact Pre P Post m k = record { at = λ d (p, q). (k q).at d p }

Ensures-read_file :
    (e : Entry) (k : ℕ) (h n : Bytes) (o : Option Entry)
    → Ensures
        (λ d. seen h n d ≡ o)
        (λ c d. (seen h n d ≡ o) × (c ≡ take k e.contents))
        (read_file e k)
Ensures-read_file e k h n o = record {
  at = λ d p c z. ((Leaves-read_file e k).at d ∙ p, read_gives e k c d z);
}

module _ (s : FileSeal) (b : Entry) where
  -- The disk still has the file `b` as the seal.
  Still : Disk → Type 0
  Still d = seen s.path_dir s.path_base d ≡ some b

  Ensures-parsed :
      (c : Bytes)
      → unsafe_seal s.owner_uid b.info ≡ false
      → c ≡ take 128 b.contents
      → Ensures Still (λ v d. value_of s d ≡ told v) (do i ← lift (parse_seal c); pure (some i))
  unfolding Still pure
  Ensures-parsed c safe q =
      Ensures-bind Still (λ i d. Still d × (parse_seal c ≡ done i)) _ _ _
        (Ensures-lift_kept Still _)
        (λ i. Ensures-fact Still (parse_seal c ≡ done i) _ _ (λ r. record {
          at = λ d p v z.
              sound_value s d b i p safe (ap parse_seal (sym q) ∙ r) ∙ ap told (done-injective z);
        }))

  Ensures-read_seal : Ensures Still (λ v d. value_of s d ≡ told v) (read_seal s (λ d. d) (done b))
  unfolding read_seal Still
  Ensures-read_seal = Ensures-bind Still _ _ _ _ (Ensures-lift_kept Still _) (λ u.
      Ensures-fact Still _ _ _ (λ r.
        Ensures-bind Still (λ u' d. Still d) _ _ _ (Ensures-idle Still)
          (λ u'.
            Ensures-bind Still _ _ _ _ (Ensures-open_nofollow s.path_dir s.path_base b) (λ after.
              Ensures-fact Still (after ≡ b) _ _ (λ same.
                Ensures-bind Still
                  (λ v d. Still d × (reject (changed_seal b.info after.info) invalid_seal ≡ done v))
                  _ _ _ (Ensures-lift_kept Still _)
                  (λ v. Ensures-fact Still _ _ _ (λ r'.
                    Ensures-bind Still _ _ _ _
                      (Ensures-read_file after 128 s.path_dir s.path_base (some b))
                      (λ c. Ensures-fact Still (c ≡ take 128 after.contents) _ _ (λ q.
                        Ensures-parsed c
                          (rejected (unsafe_seal s.owner_uid b.info) invalid_seal u r)
                          (q ∙ ap (λ e. take 128 e.contents) same))))))))))

-- A file that could not be looked up shows no seal, or the call failed.
lstat_absent :
    (h n : Bytes) (d : Disk) (e : FileError)
    → (lstat h n d).0 ≡ failed e
    → e ≡ missing
    → seen h n d ≡ none
unfolding lstat call seen
lstat_absent h n d e z m = ground (arith, z, m)

lstat_found : (h n : Bytes) (d : Disk) (b : Entry) → (lstat h n d).0 ≡ done b → seen h n d ≡ some b
unfolding lstat call seen
lstat_found h n d b z = ground (arith, z)

-- What a lookup of the seal tells.
Looked : FileSeal → Answer Entry → Disk → Type 0
Looked s found d =
    ((b : Entry) → found ≡ done b → seen s.path_dir s.path_base d ≡ some b)
    × (found ≡ failed missing → seen s.path_dir s.path_base d ≡ none)

module _ (s : FileSeal) where
  Ensures-Looked : Ensures (λ d. Unit {0}) (Looked s) (attempt (lstat s.path_dir s.path_base))
  unfolding attempt Looked
  Ensures-Looked = record {
    at = λ d p found z. (
      λ b e.
          (Leaves-lstat s.path_dir s.path_base).at d
          ∙ lstat_found s.path_dir s.path_base d b (done-injective z ∙ e),
      λ e.
          (Leaves-lstat s.path_dir s.path_base).at d
          ∙ lstat_absent s.path_dir s.path_base d missing (done-injective z ∙ e) refl,
    );
  }

  -- The value is what Load tells, or the directory is missing.
  unfoldable pub Told : Option Bytes → Disk → Type 0
  Told v d =
      (value_of s d ≡ told v)
      ⊎ ((v ≡ none) × (validate_existing_seal_directory s.owner_uid s.place ≡ failed missing))

  Ensures-failed : (Pre : Disk → Type 0) (e : FileError) → Ensures Pre Told (fail e)
  unfolding fail
  Ensures-failed Pre e = record { at = λ d p v z. absurd (ground (arith, z)) }

  Ensures-found :
      (found : Answer Entry) → Ensures (Looked s found) Told (read_seal s (λ d. d) found)
  unfolding Looked Told read_seal pure value_of found_value Still
  Ensures-found (failed missing) = record {
    at = λ d p v z. inl (ap (found_value s.owner_uid) (p.1 refl) ∙ ap told (done-injective z));
  }
  Ensures-found (failed e) = Ensures-failed _ e
  Ensures-found (done b) = record {
    at = λ d p v z. inl ((Ensures-read_seal s b).at d (p.0 b refl) v z);
  }

  Ensures-load_in :
      (found : Answer (Unit {0}))
      → validate_existing_seal_directory s.owner_uid s.place ≡ found
      → Ensures (λ d. Unit {0}) Told (load_in s (λ d. d) found)
  unfolding load_in pure Told
  Ensures-load_in (failed missing) q = record { at = λ d p v z. inr (sym (done-injective z), q) }
  Ensures-load_in (failed e) q = Ensures-failed _ e
  Ensures-load_in (done u) q =
      Ensures-bind (λ d. Unit {0}) (Looked s) Told _ _ Ensures-Looked (λ found. Ensures-found found)

  pub Ensures-load : Ensures (λ d. Unit {0}) Told (load s (λ d. d))
  unfolding load
  Ensures-load =
      Ensures-skip Told _ _
        (λ u. Ensures-load_in (validate_existing_seal_directory s.owner_uid s.place) refl)
