-- ===== src/Files.antt =====
-- Files as the programs of this repository see them: what Lstat and Stat answer, and the monad of
-- the code that works in one directory.
pub mod Disk
use re_casa_os_user_service.Prelude.{
  ℕ, Bool, true, false, Option, none, some, ◌==◌, ◌≡◌, not, ◌/◌, ◌⊎◌, ◌%◌, inl, ◌||◌, inr, refl, ap,
  arith,
}

pub data FileError : Type 0 where
  missing exists failure : FileError
  unsafe_storage invalid_key invalid_user_id config_too_large temporary_create : FileError
  invalid_seal invalid_credential invalid_address : FileError

pub data Answer {ℓ} (A : Type ℓ) : Type ℓ where
  done : A → Answer A
  failed : FileError → Answer A

-- os.FileInfo. `owner` is none if the platform gives no identity; os.SameFile compares `file_id`.
pub record Info : Type 0 where
  pub file_id : ℕ
  pub is_symlink : Bool
  pub is_regular : Bool
  pub is_dir : Bool
  pub perm : ℕ
  pub owner : Option ℕ
  pub links : ℕ

abbrev pub owned_by : ℕ → Info → Bool
owned_by uid i = elim i.owner [ none ↦ false | some o ↦ o == uid ]

-- perm & 0o022 != 0
abbrev pub writable_by_others : Info → Bool
writable_by_others i = (i.perm / 16) % 2 == 1 || (i.perm / 2) % 2 == 1

-- perm & 0o077 != 0
abbrev pub open_to_others : Info → Bool
open_to_others i = not (i.perm % 64 == 0)

abbrev pub same_file : Info → Info → Bool
same_file a b = a.file_id == b.file_id

infixl 5 ◌>>=◌
abbrev pub ◌>>=◌ : {A B : Type 0} → Answer A → (A → Answer B) → Answer B
done a >>= f = f a
failed e >>= f = failed e

infixl 5 ◌>>◌
abbrev pub ◌>>◌ : {B : Type 0} → Answer (Unit {0}) → Answer B → Answer B
done u >> b = b
failed e >> b = failed e

-- `if test { return err }`
abbrev pub reject : Bool → FileError → Answer (Unit {0})
reject true e = failed e
reject false e = done tt

-- A failed call, reported as another error.
abbrev pub or_as : {A : Type 0} → FileError → Answer A → Answer A
or_as e (done a) = done a
or_as e (failed x) = failed e

abbrev pub value : {A : Type 0} → A → Answer A → A
value a (done x) = x
value a (failed e) = a

pub Answer-cases :
    {A : Type 0} (r : Answer A) → ((a : A) × (r ≡ done a)) ⊎ ((e : FileError) × (r ≡ failed e))
Answer-cases (done a) = inl (a, refl)
Answer-cases (failed e) = inr (e, refl)

pub done-injective : {A : Type 0} {a b : A} → ◌≡◌ {A = Answer A} (done a) (done b) → a ≡ b
done-injective {A} {a} {b} e = ap (value a) e

abbrev pub is_failed : {A : Type 0} → Answer A → Bool
is_failed (done a) = false
is_failed (failed e) = true

-- A sequence that returns: its first part does, and so does what follows.
pub bind_done :
    {A B : Type 0} (m : Answer A) (f : A → Answer B) (b : B)
    → (m >>= f) ≡ done b
    → (a : A) × (m ≡ done a) × (f a ≡ done b)
bind_done (done a) f b z = (a, refl, z)
bind_done (failed e) f b z = absurd (ground (arith, z))

pub then_done :
    {B : Type 0} (m : Answer (Unit {0})) (k : Answer B) (b : B)
    → (m >> k) ≡ done b
    → (m ≡ done tt) × (k ≡ done b)
then_done (done u) k b z = (refl, z)
then_done (failed e) k b z = absurd (ground (arith, z))

pub reject_done : (b : Bool) (e : FileError) → reject b e ≡ done tt → b ≡ false
reject_done b e z = ground (arith, z)
