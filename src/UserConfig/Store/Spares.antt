-- ===== src/UserConfig/Store/Spares.antt =====
-- The files that Write and Delete of pkg/userconfig/store.go leave as they are.
use re_casa_os_user_service.Prelude.{
  [], refl, ℕ, Bytes, ◌≡◌, none, some, has_prefix, true, false, itoa, ◌≢◌, ◌⊎◌, ◌++◌, inl, arith,
  refl, inr, suc, zero, Option, subst, ==_iff,
}
use re_casa_os_user_service.Files.{
  Answer, done, failed, exists, temporary_create, or_as, done-injective,
}
use re_casa_os_user_service.Files.Disk.{
  Action, pure, fail, created, Entry, create_excl, lookup, Disk, new_file,
}
use re_casa_os_user_service.UserConfig.Store.{
  temporary_prefix, after_create, create_attempts, filename, validate_regular_file,
}
use re_casa_os_user_service.Files.Disk.Seen.{Elsewhere}
use re_casa_os_user_service.Files.Disk.Leaves.{
  Gives, Leaves, Leaves-pure, Leaves-fail, Leaves-then, Leaves-attempt, Leaves-draw_nonce,
  Leaves-lift, Leaves-create_excl, Gives-bind, Gives-any, Gives-call, Gives-attempt,
}

-- A temporary file that nothing was written to yet.
abbrev pub IsTemporary : ℕ → Entry → Type 0
IsTemporary euid e =
    (has_prefix e.name temporary_prefix ≡ true)
    × (e.contents ≡ [])
    × (validate_regular_file euid e.info ≡ done tt)

-- Another directory, or a name that is neither the configuration's nor a temporary one.
abbrev pub Apart : Bytes → Bytes → Bytes → Bytes → Type 0
Apart h' name h n = (h' ≢ h) ⊎ ((name ≢ n) × (has_prefix n temporary_prefix ≡ false))

-- A file that is not the configuration `key` of the user `i`, nor a temporary one of that user.
abbrev pub Foreign : ℕ → Bytes → Bytes → Bytes → Type 0
Foreign i key h n = Apart (itoa i) (filename key) h n

-- The same of the temporary names alone.
abbrev pub Lasting : Bytes → Bytes → Bytes → Type 0
Lasting h' h n = (h' ≢ h) ⊎ (has_prefix n temporary_prefix ≡ false)

pub temporary_name : (x : Bytes) → has_prefix (temporary_prefix ++ x) temporary_prefix ≡ true
unfolding has_prefix
temporary_name x = refl

pub elsewhere :
    (h' h n t : Bytes) → Lasting h' h n → has_prefix t temporary_prefix ≡ true → Elsewhere h n h' t
elsewhere h' h n t (inl q) e = inl q
elsewhere h' h n t (inr q) e = inr (λ z. ground (arith, q, e, z))

module _ {h n h' : Bytes} (o : Lasting h' h n) where
  Leaves-after_create :
      (again : Action Entry) (r : Answer Entry)
      → Leaves h n again
      → Leaves h n (after_create again r)
  unfolding after_create
  Leaves-after_create again (done e) k = Leaves-pure e
  Leaves-after_create again (failed exists) k = k
  Leaves-after_create again (failed x) k = Leaves-fail temporary_create

  pub Leaves-create_attempts : (euid m : ℕ) → Leaves h n (create_attempts euid h' m)
  unfolding create_attempts
  Leaves-create_attempts euid zero = Leaves-fail temporary_create
  Leaves-create_attempts euid (suc m) =
      Leaves-then _ _ (Leaves-attempt _ Leaves-draw_nonce) (λ nonce.
        Leaves-then _ _ (Leaves-lift (or_as temporary_create nonce)) (λ name.
          Leaves-then _ _
            (Leaves-attempt _ (
              Leaves-create_excl euid h' (temporary_prefix ++ name)
                (elsewhere h' h n (temporary_prefix ++ name) o (temporary_name name))))
            (λ r.
              Leaves-after_create (create_attempts euid h' m) r (Leaves-create_attempts euid m))))

Gives-after_create :
    (euid : ℕ) (again : Action Entry) (r : Answer Entry)
    → Gives (IsTemporary euid) again
    → ((e : Entry) → r ≡ done e → IsTemporary euid e)
    → Gives (IsTemporary euid) (after_create again r)
unfolding after_create pure fail
Gives-after_create euid again (done e) k q = record { at = λ d a z. q a z }
Gives-after_create euid again (failed exists) k q = k
Gives-after_create euid again (failed x) k q = record { at = λ d a z. ground (arith, z) }

new_file_trusted :
    (euid : ℕ) (d : Disk) (n : Bytes)
    → validate_regular_file euid (new_file euid d n).info ≡ done tt
unfolding validate_regular_file
new_file_trusted euid d n = ground (arith, (==_iff euid euid).1 refl)

-- The file of a successful creation has that name.
Gives-created :
    (euid : ℕ) (h n : Bytes) (r : Option Entry)
    → has_prefix n temporary_prefix ≡ true
    → Gives (IsTemporary euid) (created euid h n r)
unfolding created
Gives-created euid h n none t = record {
  at = λ d a z. subst (IsTemporary euid) (done-injective z) (t, refl, new_file_trusted euid d n);
}
Gives-created euid h n (some x) t = record { at = λ d a z. ground (arith, z) }

Gives-create_excl :
    (euid : ℕ) (h n : Bytes)
    → has_prefix n temporary_prefix ≡ true
    → Gives (IsTemporary euid) (create_excl euid h n)
unfolding create_excl
Gives-create_excl euid h n t =
    Gives-call (IsTemporary euid) _
      (record { at = λ d a z. (Gives-created euid h n (lookup n (d.dirs h)) t).at d a z })

pub Gives-create_attempts :
    (euid : ℕ) (h : Bytes) (m : ℕ) → Gives (IsTemporary euid) (create_attempts euid h m)
unfolding create_attempts fail
Gives-create_attempts euid h zero = record { at = λ d a z. ground (arith, z) }
Gives-create_attempts euid h (suc m) =
    Gives-bind (λ x. Unit {0}) (IsTemporary euid) _ _ (Gives-any _)
      (λ nonce u.
        Gives-bind (λ x. Unit {0}) (IsTemporary euid) _ _ (Gives-any _)
          (λ name u'.
            Gives-bind (λ r. (e : Entry) → r ≡ done e → IsTemporary euid e) (IsTemporary euid) _ _
              (Gives-attempt (IsTemporary euid) _
                (Gives-create_excl euid h (temporary_prefix ++ name) (temporary_name name)))
              (λ r q.
                Gives-after_create euid (create_attempts euid h m) r
                  (Gives-create_attempts euid h m) q)))
