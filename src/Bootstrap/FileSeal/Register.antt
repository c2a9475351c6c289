-- ===== src/Bootstrap/FileSeal/Register.antt =====
-- The contract of a seal: a register that is written once. What a clean Load would find in the file of
-- pkg/userbootstrap/file_seal.go is its value.
use re_casa_os_user_service.Prelude.{
  ℕ, Bytes, ◌≡◌, none, some, refl, if◌then◌else◌, Option, subst, sym, take,
}
use re_casa_os_user_service.Files.{Answer, done, failed}
use re_casa_os_user_service.Files.Disk.{Disk, Entry, ◌>>=◌, Action, attempt, continue}
use re_casa_os_user_service.Bootstrap.FileSeal.{FileSeal, unsafe_seal, parse_seal}
use re_casa_os_user_service.Files.Disk.Leaves.{Leaves}
use re_casa_os_user_service.Files.Disk.Seen.{seen}
use re_casa_os_user_service.Files.Disk.Ensures.{Ensures}

pub data Register : Type 0 where
  absent unreadable : Register
  sealed : Bytes → Register

infix 40 ◌⟶◌
-- The register keeps its value, or gets its first one.
pub data ◌⟶◌ : Register → Register → Type 0 where
  stay : {v : Register} → v ⟶ v
  set_once : {i : Bytes} → absent ⟶ sealed i

abbrev pub sealed_by : Answer Bytes → Register
sealed_by (done i) = sealed i
sealed_by (failed e) = unreadable

unfoldable pub entry_value : ℕ → Entry → Register
entry_value owner e =
    if unsafe_seal owner e.info then unreadable else sealed_by (parse_seal (take 128 e.contents))

unfoldable pub found_value : ℕ → Option Entry → Register
found_value owner none = absent
found_value owner (some e) = entry_value owner e

-- The value of the seal on a disk.
unfoldable pub value_of : FileSeal → Disk → Register
value_of s d = found_value s.owner_uid (seen s.path_dir s.path_base d)

pub ⟶-trans : {u v w : Register} → u ⟶ v → v ⟶ w → u ⟶ w
⟶-trans stay b = b
⟶-trans set_once stay = set_once

-- Started where `Pre` holds, the action moves the register along, whether it returns or fails.
pub record Advances (s : FileSeal) {A : Type 0} (Pre : Disk → Type 0) (m : Action A) : Type 0 where
  pub at : (d : Disk) → Pre d → value_of s d ⟶ value_of s (m d).1

pub Leaves-Advances :
    {A : Type 0} (s : FileSeal) (Pre : Disk → Type 0) (m : Action A)
    → Leaves s.path_dir s.path_base m
    → Advances s Pre m
unfolding value_of
Leaves-Advances s Pre m k = record {
  at = λ d p. subst (λ o. value_of s d ⟶ found_value s.owner_uid o) (sym (k.at d)) stay;
}

pub Advances-bind :
    {A B : Type 0} (s : FileSeal) (Pre : Disk → Type 0) (Mid : A → Disk → Type 0) (m : Action A)
    (f : A → Action B)
    → Advances s Pre m
    → Ensures Pre Mid m
    → ((a : A) → Advances s (Mid a) (f a))
    → Advances s Pre (m >>= f)
unfolding ◌>>=◌
Advances-bind s Pre Mid m f km kq kf = record {
  at = λ d p.
      elim (m d).0 as (λ r. r ≡ (m d).0 → value_of s d ⟶ value_of s (continue f r (m d).1).1) [
        | done a ↦ λ e. ⟶-trans (km.at d p) ((kf a).at (m d).1 (kq.at d p a (sym e)))
        | failed x ↦ λ e. km.at d p
      ]
        refl;
}

pub Advances-then :
    {A B : Type 0} (s : FileSeal) (Pre : Disk → Type 0) (m : Action A) (f : A → Action B)
    → Advances s Pre m
    → ((a : A) → Advances s (λ d. Unit {0}) (f a))
    → Advances s Pre (m >>= f)
Advances-then s Pre m f km kf =
    Advances-bind s Pre (λ a d. Unit {0}) m f km (record { at = λ d p a z. tt }) kf

pub Advances-attempt :
    {A : Type 0} (s : FileSeal) (Pre : Disk → Type 0) (m : Action A)
    → Advances s Pre m
    → Advances s Pre (attempt m)
unfolding attempt
Advances-attempt s Pre m k = record { at = λ d p. k.at d p }

pub Advances-given :
    {A : Type 0} (s : FileSeal) (P : Type 0) (m : Action A)
    → (P → Advances s (λ d. Unit {0}) m)
    → Advances s (λ d. P) m
Advances-given s P m k = record { at = λ d p. (k p).at d tt }
