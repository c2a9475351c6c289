-- ===== src/Database/Opening.antt =====
-- pkg/sqlite/db.go: what the ways to open the database do not do.
use re_casa_os_user_service.Prelude.{
  refl, ℕ, Bytes, ◌≡◌, some, Bool-cases, inl, arith, inr, sym, none, ap, false, ◌∙◌,
}
use re_casa_os_user_service.Files.{
  Answer, FileError, failed, done, failure, exists, missing, done-injective,
}
use re_casa_os_user_service.Files.Disk.{
  Action, Disk, ◌>>=◌, create_excl, created, call, Entry, continue, lift, attempt, lstat,
}
use re_casa_os_user_service.Database.{
  get_existing_db, get_bootstrap_db, open_db, after_claim, migrate_if, secure_database_file,
  database_filename, accept_database_file,
}
use re_casa_os_user_service.Database.Directory.{DatabaseDirectory}
use re_casa_os_user_service.Files.Disk.Seen.{seen}

-- A claim does not succeed on a name that is taken.
claim_taken :
    (euid : ℕ) (h n : Bytes) (x : Entry) (d : Disk)
    → seen h n d ≡ some x
    → (e : FileError) × ((create_excl euid h n d).0 ≡ failed e)
unfolding create_excl created call seen
claim_taken euid h n x d p = elim (Bool-cases (d.fails d.calls)) [
  | inl f ↦ (failure, ground (arith, f))
  | inr f ↦ (exists, ground (arith, f, p))
]

module _ (euid : ℕ) (p : DatabaseDirectory) (h : Bytes) (connect : Action (Unit {0})) where
  claim_unmigrated :
      (m m' : Action (Unit {0})) (r : Answer Entry)
      → (e : FileError) × (r ≡ failed e)
      → after_claim euid p h connect m r ≡ after_claim euid p h connect m' r
  unfolding after_claim open_db migrate_if
  claim_unmigrated m m' (done x) (e, q) = absurd (ground (arith, q))
  claim_unmigrated m m' (failed exists) q = refl
  claim_unmigrated m m' (failed x) q = refl

-- Two continuations that agree on what the action returns.
bind_same :
    {A B : Type 0} (m : Action A) (f g : A → Action B) (d : Disk)
    → ((a : A) → (m d).0 ≡ done a → f a (m d).1 ≡ g a (m d).1)
    → (m >>= f) d ≡ (m >>= g) d
unfolding ◌>>=◌
bind_same m f g d k =
    elim (m d).0 as (λ r. r ≡ (m d).0 → continue f r (m d).1 ≡ continue g r (m d).1) [
      | done a ↦ λ e. k a (sym e)
      | failed x ↦ λ e. refl
    ]
      refl

-- The bootstrap command never migrates a database that was there before it: with any two
-- migrations it does the same.
pub bootstrap_migrates_own :
    (euid : ℕ) (p : DatabaseDirectory) (h : Bytes) (connect m m' : Action (Unit {0})) (x : Entry)
    (d : Disk)
    → seen h database_filename d ≡ some x
    → get_bootstrap_db euid p h connect m d ≡ get_bootstrap_db euid p h connect m' d
unfolding get_bootstrap_db lift attempt
bootstrap_migrates_own euid p h connect m m' x d q = bind_same _ _ _ d (λ u a.
    bind_same _ _ _ d (λ v b. bind_same _ _ _ d (λ r c.
      ap (λ (k : Action (Unit {0})). k (create_excl euid h database_filename d).1)
        (claim_unmigrated euid p h connect m m' r (
          let (e, z) = claim_taken euid h database_filename x d q in
          (e, sym (done-injective c) ∙ z))))))

-- An action that fails and leaves every directory as it is.
abbrev FailsIdle : {A : Type 0} → Disk → Answer A × Disk → Type 0
FailsIdle d r = ((e : FileError) × (r.0 ≡ failed e)) × (r.1.dirs ≡ d.dirs)

bind_fails :
    {A B : Type 0} (m : Action A) (f : A → Action B) (d : Disk)
    → FailsIdle d (m d)
    → FailsIdle d ((m >>= f) d)
unfolding ◌>>=◌
bind_fails m f d ((e, z), same) = ((e, ground (arith, z)), ground (arith, z, same))

lift_or :
    {B : Type 0} (r : Answer (Unit {0})) (f : Unit {0} → Action B) (d : Disk)
    → FailsIdle d (f tt d)
    → FailsIdle d ((lift r >>= f) d)
unfolding ◌>>=◌ lift
lift_or (done u) f d k = k
lift_or (failed e) f d k = ((e, refl), refl)

secure_missing :
    (euid : ℕ) (h : Bytes) (d : Disk)
    → seen h database_filename d ≡ none
    → FailsIdle d (secure_database_file euid h false d)
unfolding secure_database_file seen ◌>>=◌ lstat call attempt lift accept_database_file
secure_missing euid h d q = elim (Bool-cases (d.fails d.calls)) [
  | inl f ↦ ((failure, ground (arith, f)), ground (arith, f))
  | inr f ↦ ((missing, ground (arith, f, q)), ground (arith, f, q))
]

-- Opening an existing database fails and makes no file and no directory entry if there is none.
pub existing_makes_nothing :
    (euid : ℕ) (p : DatabaseDirectory) (h : Bytes) (connect m : Action (Unit {0})) (d : Disk)
    → seen h database_filename d ≡ none
    → ((e : FileError) × ((get_existing_db euid p h connect m d).0 ≡ failed e))
      × ((get_existing_db euid p h connect m d).1.dirs ≡ d.dirs)
unfolding get_existing_db open_db
existing_makes_nothing euid p h connect m d q =
    lift_or _ _ d (lift_or _ _ d (bind_fails _ _ d (secure_missing euid h d q)))
