-- ===== src/UserConfig/Place.antt =====
-- pkg/userconfig/store.go: openUserRoot. What the system calls answer is an argument.
use re_casa_os_user_service.Prelude.{
  ℕ, Bytes, Bool, false, ◌≡◌, not, ◌||◌, ◌<◌, ◌==◌, if◌then◌else◌, itoa, inr, arith, inl, ◌/◌, true,
  ◌≢◌, ◌%◌, sym, some, Option-cases,
}
use re_casa_os_user_service.Files.{
  Info, Answer, done, owned_by, failed, same_file, exists, writable_by_others, Answer-cases,
  unsafe_storage, invalid_user_id, reject, ◌>>=◌, ◌>>◌,
}

-- The answers, in the order of the calls: of the data root by name and once opened, of the user's
-- directory by name and once opened, and of the handle that secures its mode.
pub record Place : Type 0 where
  pub is_blank : Bool
  pub is_absolute : Bool
  pub root : Answer Info
  pub open_root : Answer (Unit {0})
  pub opened_root : Answer Info
  pub mkdir : Answer (Unit {0})
  pub user : Answer Info
  pub open_user : Answer (Unit {0})
  pub opened_user : Answer Info
  pub handle : Answer (Unit {0})
  pub chmod : Answer (Unit {0})
  pub close : Answer (Unit {0})

-- A directory that exists already is as good as one created.
abbrev pub unless_exists : Answer (Unit {0}) → Answer (Unit {0})
unless_exists (done u) = done u
unless_exists (failed exists) = done tt
unless_exists (failed e) = failed e

unfoldable pub unsafe_root : ℕ → Info → Bool
unsafe_root euid i = i.is_symlink || not i.is_dir || not (owned_by euid i) || writable_by_others i

unfoldable pub changed_root : ℕ → Info → Info → Bool
changed_root euid before after =
    not (same_file before after)
    || not after.is_dir
    || not (owned_by euid after)
    || writable_by_others after

unfoldable pub unsafe_user : ℕ → Info → Bool
unsafe_user euid i = i.is_symlink || not i.is_dir || not (owned_by euid i)

unfoldable pub changed_user : ℕ → Info → Info → Bool
changed_user euid before after =
    not (same_file before after) || not after.is_dir || not (owned_by euid after)

unfoldable pub open_data_root : ℕ → Place → Answer (Unit {0})
open_data_root euid p = do
  root ← p.root
  reject (unsafe_root euid root) unsafe_storage
  p.open_root
  opened ← p.opened_root
  reject (changed_root euid root opened) unsafe_storage

unfoldable pub open_user_directory : ℕ → Place → Answer (Unit {0})
open_user_directory euid p = do
  user ← p.user
  reject (unsafe_user euid user) unsafe_storage
  p.open_user
  opened ← p.opened_user
  reject (changed_user euid user opened) unsafe_storage
  p.handle
  p.chmod
  p.close

-- The name of the user's directory.
unfoldable pub open_user_root : ℕ → Place → ℕ → Bool → Answer Bytes
open_user_root euid p user_id create = do
  reject (user_id == 0) invalid_user_id
  reject (p.is_blank || not p.is_absolute) unsafe_storage
  open_data_root euid p
  (if create then unless_exists p.mkdir else done tt)
  open_user_directory euid p
  done (itoa user_id)

open_data_root_ok :
    (euid : ℕ) (p : Place) (u : Unit {0})
    → open_data_root euid p ≡ done u
    → (root : Info) × (p.root ≡ done root)
      × (unsafe_root euid root ≡ false)
      × (opened : Info) × (p.opened_root ≡ done opened)
      × (changed_root euid root opened ≡ false)
unfolding open_data_root
open_data_root_ok euid p u e = elim (Answer-cases p.root) [
  | inr (x, e1) ↦ absurd (ground (arith, e, e1))
  | inl (root, e1) ↦ elim (Answer-cases p.opened_root) [
    | inr (x, e2) ↦ absurd (ground (arith, e, e1, e2))
    | inl (opened, e2) ↦
        (root, e1, ground (arith, e, e1, e2), opened, e2, ground (arith, e, e1, e2))
  ]
]

open_user_directory_ok :
    (euid : ℕ) (p : Place) (u : Unit {0})
    → open_user_directory euid p ≡ done u
    → (user : Info) × (p.user ≡ done user)
      × (unsafe_user euid user ≡ false)
      × (opened : Info) × (p.opened_user ≡ done opened)
      × (changed_user euid user opened ≡ false)
      × (p.chmod ≡ done tt)
unfolding open_user_directory
open_user_directory_ok euid p u e = elim (Answer-cases p.user) [
  | inr (x, e1) ↦ absurd (ground (arith, e, e1))
  | inl (user, e1) ↦ elim (Answer-cases p.opened_user) [
    | inr (x, e2) ↦ absurd (ground (arith, e, e1, e2))
    | inl (opened, e2) ↦ (
      user,
      e1,
      ground (arith, e, e1, e2),
      opened,
      e2,
      ground (arith, e, e1, e2),
      ground (arith, e, e1, e2),
    )
  ]
]

-- A real directory of the user `euid`.
pub record IsOwnDirectory (euid : ℕ) (i : Info) : Type 0 where
  pub plain : i.is_symlink ≡ false
  pub directory : i.is_dir ≡ true
  pub owner : i.owner ≡ some euid

-- The permissions give neither the group (020) nor others (002) the right to write.
pub record IsPrivatelyWritable (i : Info) : Type 0 where
  pub group : (i.perm / 16) % 2 ≡ 0
  pub rest : (i.perm / 2) % 2 ≡ 0

-- The directory that was opened: the same object, and still a directory of the user.
pub record IsOpened (euid : ℕ) (before after : Info) : Type 0 where
  pub same : after.file_id ≡ before.file_id
  pub still_directory : after.is_dir ≡ true
  pub still_owner : after.owner ≡ some euid

bit_clear : (n : ℕ) → (n == 1) ≡ false → n ≢ 1
bit_clear n h = ground (arith, h)

mod_two : (n : ℕ) → n % 2 < 2
mod_two n = omega arith

same_id : (a b : Info) → same_file a b ≡ true → a.file_id ≡ b.file_id
same_id a b h = ground (arith, h)

owned_by_lem : (euid : ℕ) (i : Info) → owned_by euid i ≡ true → i.owner ≡ some euid
owned_by_lem euid i h = elim (Option-cases i.owner) [
  | inl e ↦ absurd (ground (arith, e, h))
  | inr (o, e) ↦ ground (arith, e, h)
]

no_writers : (i : Info) → writable_by_others i ≡ false → IsPrivatelyWritable i
no_writers i h = record {
  group = omega (arith, bit_clear ((i.perm / 16) % 2) (ground (arith, h)), mod_two (i.perm / 16));
  rest = omega (arith, bit_clear ((i.perm / 2) % 2) (ground (arith, h)), mod_two (i.perm / 2));
}

unsafe_root_lem :
    (euid : ℕ) (i : Info)
    → unsafe_root euid i ≡ false
    → IsOwnDirectory euid i × IsPrivatelyWritable i
unfolding unsafe_root
unsafe_root_lem euid i h = (
  record {
    plain = ground (arith, h);
    directory = ground (arith, h);
    owner = owned_by_lem euid i (ground (arith, h));
  },
  no_writers i (ground (arith, h)),
)

changed_root_lem :
    (euid : ℕ) (before after : Info)
    → changed_root euid before after ≡ false
    → IsOpened euid before after × IsPrivatelyWritable after
unfolding changed_root
changed_root_lem euid before after h = (
  record {
    same = sym (same_id before after (ground (arith, h)));
    still_directory = ground (arith, h);
    still_owner = owned_by_lem euid after (ground (arith, h));
  },
  no_writers after (ground (arith, h)),
)

unsafe_user_lem : (euid : ℕ) (i : Info) → unsafe_user euid i ≡ false → IsOwnDirectory euid i
unfolding unsafe_user
unsafe_user_lem euid i h = record {
  plain = ground (arith, h);
  directory = ground (arith, h);
  owner = owned_by_lem euid i (ground (arith, h));
}

changed_user_lem :
    (euid : ℕ) (before after : Info)
    → changed_user euid before after ≡ false
    → IsOpened euid before after
unfolding changed_user
changed_user_lem euid before after h = record {
  same = sym (same_id before after (ground (arith, h)));
  still_directory = ground (arith, h);
  still_owner = owned_by_lem euid after (ground (arith, h));
}

-- A directory that is opened lies, as far as the system answered, in a data root and is itself a real
-- directory of the service's own user: neither is a symbolic link, neither was exchanged while it
-- was opened, nobody else may write to the data root, and the directory's mode was set to 0700. It
-- is named by the id, which is not 0.
pub open_user_root_ok :
    (euid : ℕ) (p : Place) (i : ℕ) (create : Bool) (h : Bytes)
    → open_user_root euid p i create ≡ done h
    → (0 < i)
      × (h ≡ itoa i)
      × ((root : Info) × (p.root ≡ done root)
          × IsOwnDirectory euid root
          × IsPrivatelyWritable root
          × (opened : Info) × (p.opened_root ≡ done opened)
          × IsOpened euid root opened
          × IsPrivatelyWritable opened)
      × ((user : Info) × (p.user ≡ done user)
          × IsOwnDirectory euid user
          × (opened : Info) × (p.opened_user ≡ done opened)
          × IsOpened euid user opened
          × (p.chmod ≡ done tt))
unfolding open_user_root
open_user_root_ok euid p i create h e = elim (Answer-cases (open_data_root euid p)) [
  | inr (x, e1) ↦ absurd (ground (arith, e, e1))
  | inl (u, e1) ↦ elim (Answer-cases (open_user_directory euid p)) [
    | inr (x, e2) ↦ absurd (ground (arith, e, e1, e2))
    | inl (v, e2) ↦
        let (root, r1, r2, opened, r3, r4) = open_data_root_ok euid p u e1 in
        let (user, u1, u2, opened', u3, u4, u5) = open_user_directory_ok euid p v e2 in
        let (own, writers) = unsafe_root_lem euid root r2 in
        let (kept, writers') = changed_root_lem euid root opened r4 in
        (
          ground (arith, e, e1, e2),
          ground (arith, e, e1, e2),
          (root, r1, own, writers, opened, r3, kept, writers'),
          (
            user,
            u1,
            unsafe_user_lem euid user u2,
            opened',
            u3,
            changed_user_lem euid user opened' u4,
            u5,
          ),
        )
  ]
]
