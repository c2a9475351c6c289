-- ===== src/Users/Login.antt =====
-- Authenticating in service/user.go.
use re_casa_os_user_service.Prelude.{
  ℕ, Bytes, ◌≡◌, some, Option-cases, inl, arith, inr, count_where, ap, update_where, List, Bool,
  ◌∷◌, [], refl, ◌⊎◌, suc, zero, subst, ◌≢◌, Bool-cases,
}
use re_casa_os_user_service.Password.{Kdf, verify, hash, needs_rehash}
use re_casa_os_user_service.Model.{Db, User}
use re_casa_os_user_service.Store.{World, ◌>>=◌, ok, Result-cases, Error, refuse_if, err, ticked}
use re_casa_os_user_service.Users.{
  recheck, set_password, stored_password, upgrade_hash, swap_password, new_hash, holds,
  settle_upgrade, authenticate_user, find_by_username,
}
use re_casa_os_user_service.Session.Access.{find_user}

recheck_ok :
    (k : Kdf) (i : ℕ) (plaintext : Bytes) (w : World) (u : User)
    → (recheck k i plaintext w).0 ≡ ok u
    → (find_user i w.db ≡ some u) × (verify k u.password plaintext ≡ ok tt)
unfolding ◌>>=◌ recheck
recheck_ok k i plaintext w u h = elim (Option-cases (find_user i w.db)) [
  | inl e ↦ absurd (ground (arith, e))
  | inr (v, e) ↦ elim (Result-cases (verify k v.password plaintext)) [
    | inr (x, e') ↦ absurd (ground (arith, e, e'))
    | inl (x, e') ↦ (ground (arith, e, e'), ground (arith, e, e'))
  ]
]

-- What a login may return: the row as it was read, or with its hash renewed, or the row read again
-- after someone else changed it, and then verified again.
pub data Admitted (k : Kdf) (others : Db → Db) (plaintext : Bytes) (row : User) (d : Db)
    : User → Type 0 where
  as_read : (u : User) → u ≡ row → Admitted k others plaintext row d u
  renewed :
      (u : User) (verifier : Bytes)
      → u ≡ set_password verifier row
      → Admitted k others plaintext row d u
  read_again :
      (u : User)
      → find_user row.id (others d) ≡ some u
      → verify k u.password plaintext ≡ ok tt
      → Admitted k others plaintext row d u

update_where-none :
    (p : User → Bool) (f : User → User) (us : List User)
    → count_where p us ≡ 0
    → update_where p f us ≡ us
unfolding count_where update_where
update_where-none p f [] h = refl
update_where-none p f (u ∷ us) h = ground (arith, update_where-none p f us)

swap-none :
    (f : User → User) (i : ℕ) (old : Bytes) (d : Db)
    → (swap_password f i old d).0 ≡ 0
    → (swap_password f i old d).1 ≡ d
unfolding swap_password
swap-none f i old d h =
    ap (λ (us : List User). record d { users = us }) (update_where-none (holds i old) f d.users h)

module _ (k : Kdf) (others : Db → Db) (row : User) (plaintext : Bytes) where
  settle_ok :
      (v : Bytes) (w : World) (n : ℕ) (u : User)
      → (settle_upgrade k row plaintext v n w).0 ≡ ok u
      → (u ≡ set_password v row)
        ⊎ ((n ≡ 0) × (find_user row.id w.db ≡ some u) × (verify k u.password plaintext ≡ ok tt))
  unfolding settle_upgrade ◌>>=◌
  settle_ok v w zero u h = (let (a, b) = recheck_ok k row.id plaintext w u h in inr (refl, a, b))
  settle_ok v w (suc n) u h = inl (ground (arith, h))

  swap : Bytes → ℕ → Db → ℕ × Db
  swap v at d = swap_password (stored_password v at) row.id row.password d

  swapped : Bytes → World → World
  swapped v w = record w {
    calls = suc w.calls;
    draws = suc w.draws;
    db = (swap v w.clock (others w.db)).1;
  }

  upgrade_runs :
      (v : Bytes) (w : World) (u : User)
      → hash k plaintext (k.salts w.draws) ≡ ok v
      → (upgrade_hash k others row plaintext w).0 ≡ ok u
      → (settle_upgrade k row plaintext v (swap v w.clock (others w.db)).0 (swapped v w)).0 ≡ ok u
  unfolding ◌>>=◌ upgrade_hash new_hash swap swapped
  upgrade_runs v w u e h = ground (arith, e, h)

  upgrade_fails :
      (w : World) (u : User) (x : Error)
      → hash k plaintext (k.salts w.draws) ≡ err x
      → (upgrade_hash k others row plaintext w).0 ≢ ok u
  unfolding ◌>>=◌ upgrade_hash new_hash
  upgrade_fails w u x e h = ground (arith, e)

  upgrade_ok :
      (w : World) (u : User)
      → (upgrade_hash k others row plaintext w).0 ≡ ok u
      → Admitted k others plaintext row w.db u
  unfolding swapped swap
  upgrade_ok w u h = elim (Result-cases (hash k plaintext (k.salts w.draws))) [
    | inr (x, e) ↦ absurd (upgrade_fails w u x e h)
    | inl (v, e) ↦
        elim (settle_ok v (swapped v w) (swap v w.clock (others w.db)).0 u
          (upgrade_runs v w u e h)) [
            | inl same ↦ renewed u v same
            | inr (n, f, g) ↦
                read_again u
                  (subst (λ d. find_user row.id d ≡ some u)
                    (swap-none (stored_password v w.clock) row.id row.password (others w.db) n) f)
                  g
          ]
  ]

module _ (k : Kdf) (others : Db → Db) (username plaintext : Bytes) (w : World) (u row : User) where
  returned :
      find_by_username username w.db ≡ some row
      → verify k row.password plaintext ≡ ok tt
      → (authenticate_user k others username plaintext w).0 ≡ ok u
      → (u ≡ row) ⊎ ((upgrade_hash k others row plaintext (ticked w)).0 ≡ ok u)
  unfolding ◌>>=◌ authenticate_user refuse_if
  returned f e h = elim (Bool-cases (needs_rehash k row.password)) [
    | inl t ↦ inr (ground (arith, f, e, t, h))
    | inr t ↦ inl (ground (arith, f, e, t, h))
  ]

  admitted :
      find_by_username username w.db ≡ some row
      → verify k row.password plaintext ≡ ok tt
      → (authenticate_user k others username plaintext w).0 ≡ ok u
      → Admitted k others plaintext row w.db u
  admitted f e h = elim (returned f e h) [
    | inl same ↦ as_read u same
    | inr up ↦ upgrade_ok k others row plaintext (ticked w) u up
  ]

-- A login that succeeds verified the plaintext against the row of that name. It returns the row as
-- it was read, or with its verifier renewed, or, if somebody else changed the verifier meanwhile,
-- the row as it then was, after verifying the plaintext against it.
pub authenticate_user_ok :
    (k : Kdf) (others : Db → Db) (username plaintext : Bytes) (w : World) (u : User)
    → (authenticate_user k others username plaintext w).0 ≡ ok u
    → (row : User) × (find_by_username username w.db ≡ some row)
      × (verify k row.password plaintext ≡ ok tt)
      × Admitted k others plaintext row w.db u
unfolding ◌>>=◌ authenticate_user refuse_if
authenticate_user_ok k others username plaintext w u h =
    elim (Option-cases (find_by_username username w.db)) [
      | inl e ↦ absurd (ground (arith, e))
      | inr (row, e) ↦ elim (Result-cases (verify k row.password plaintext)) [
        | inr (x, e') ↦ absurd (ground (arith, e, e'))
        | inl (x, e') ↦
            (row, e, ground (arith, e'), admitted k others username plaintext w u row e e' h)
      ]
    ]
