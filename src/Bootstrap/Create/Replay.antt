-- ===== src/Bootstrap/Create/Replay.antt =====
-- CreateAdmin of pkg/userbootstrap/bootstrap.go as a whole: what a success leaves, and that there is
-- no second one.
use re_casa_os_user_service.Prelude.{
  ℕ, Option, Bytes, some, ◌≡◌, inr, arith, inl, none, ◌∙◌, ap, Bool, true, ◌≢◌, refl, sym,
}
use re_casa_os_user_service.Bootstrap.State.{Seal, with_immediate_transaction, reconcile_state}
use re_casa_os_user_service.Bootstrap.State.Closed.{
  SealLaws, IsClosed, reconcile_stays_closed, is_closed,
}
use re_casa_os_user_service.Store.{◌>>=◌, M, Result, World, ok, ticked, Result-cases, refuse_if}
use re_casa_os_user_service.Bootstrap.Create.{finish_create, create_with, create_body, create_admin}
use re_casa_os_user_service.Model.{State, Db}
use re_casa_os_user_service.Bootstrap.State.UsersKept.{reconcile-HasUsers}
use re_casa_os_user_service.Bootstrap.Create.Once.{Created, body_refuses, body_creates}

module _ (random : ℕ → Option Bytes) (seal : Seal) (laws : SealLaws seal) where
  finished :
      (s : State) (o : Option ℕ) (w : World) (i : ℕ)
      → (finish_create random seal s o w).0 ≡ ok i
      → (o ≡ some i) × ((finish_create random seal s o w).1.db ≡ w.db)
  unfolding ◌>>=◌ finish_create
  finished s none w i h = elim (Result-cases (reconcile_state random (some seal) w).0) [
    | inl (x, e) ↦ absurd (ground (arith, e, h))
    | inr (x, e) ↦ absurd (ground (arith, e, h))
  ]
  finished s (some j) w i h =
      (ground arith, ground (arith, laws.create_outside s.installation_id w))

  tx_result :
      (m : M (Option ℕ)) (w : World) (o : Option ℕ)
      → (with_immediate_transaction m w).0 ≡ ok o
      → ((m (ticked (ticked w))).0 ≡ ok o)
        × ((with_immediate_transaction m w).1.db ≡ (m (ticked (ticked w))).1.db)
  unfolding ◌>>=◌ with_immediate_transaction
  tx_result m w o h = ground arith

  commits :
      (name verifier : Bytes) (hook : Option (ℕ → Result (Unit {0}))) (s : State) (w : World)
      (i : ℕ)
      → (create_with random name verifier hook (some seal) s w).0 ≡ ok i
      → let b = create_body name verifier hook s (ticked (ticked w)) in
        (b.0 ≡ ok (some i))
        × ((create_with random name verifier hook (some seal) s w).1.db ≡ b.1.db)
  unfolding ◌>>=◌ create_with
  commits name verifier hook s w i h =
      elim (Result-cases (with_immediate_transaction (create_body name verifier hook s) w).0) [
        | inr (x, e) ↦ absurd (ground (arith, e))
        | inl (o, e) ↦
            let (a, b) = tx_result (create_body name verifier hook s) w o e in
            let done =
              finished s o (with_immediate_transaction (create_body name verifier hook s) w).1 i
                (ground (arith, e)) in
            (a ∙ ap ok done.0, ground (arith, e, done.1, b))
      ]

  -- Reconciling adds, changes and removes no user.
  reconcile_users : (w : World) → (reconcile_state random (some seal) w).1.db.users ≡ w.db.users
  reconcile_users w = (reconcile-HasUsers random seal laws w.db.users).at w refl

  refused_closed :
      (name verifier : Bytes) (hook : Option (ℕ → Result (Unit {0}))) (s : State) (w : World)
      (i : ℕ)
      → IsClosed w.db
      → (create_with random name verifier hook (some seal) s w).0 ≢ ok i
  refused_closed name verifier hook s w i h e =
      body_refuses name verifier hook s (ticked (ticked w)) i h
        (commits name verifier hook s w i e).0

  reaches :
      (is_argon2id : Bytes → Bool) (name verifier : Bytes) (hook : Option (ℕ → Result (Unit {0})))
      (w : World) (i : ℕ)
      → (create_admin random is_argon2id (some seal) name verifier hook w).0 ≡ ok i
      → (s : State) × (is_argon2id verifier ≡ true)
        × (create_admin random is_argon2id (some seal) name verifier hook w
            ≡ create_with random name verifier hook
                (some seal)
                s
                (reconcile_state random (some seal) w).1)
  unfolding ◌>>=◌ create_admin refuse_if
  reaches is_argon2id name verifier hook w i h =
      elim (Result-cases (reconcile_state random (some seal) w).0) [
        | inr (x, e) ↦ absurd (ground (arith, e))
        | inl (s, e) ↦ (s, ground (arith, e), ground (arith, e))
      ]

  -- A success means that there was no user; afterwards the new administrator is the only one, under
  -- the returned id, and the marker has left the pristine state.
  pub create_admin_ok :
      (is_argon2id : Bytes → Bool) (name verifier : Bytes) (hook : Option (ℕ → Result (Unit {0})))
      (w : World) (i : ℕ)
      → (create_admin random is_argon2id (some seal) name verifier hook w).0 ≡ ok i
      → (is_argon2id verifier ≡ true)
        × Created name verifier i w.db.users
            (create_admin random is_argon2id (some seal) name verifier hook w).1.db
  create_admin_ok is_argon2id name verifier hook w i h =
      let (s, argon, same) = reaches is_argon2id name verifier hook w i h in
      let w' = (reconcile_state random (some seal) w).1 in
      let (a, b) =
        commits name verifier hook s w' i (ap (λ (r : Result ℕ × World). r.0) (sym same) ∙ h) in
      let (empty, us, closed, pos) = body_creates name verifier hook s (ticked (ticked w')) i a in
      let final = ap (λ (r : Result ℕ × World). r.1.db) same ∙ b in
      (
        argon,
        (
          sym (reconcile_users w) ∙ empty,
          (us.0, ap (λ (d : Db). d.users) final ∙ us.1),
          ap is_closed final ∙ closed,
          pos,
        ),
      )

  -- On tables whose marker has left the pristine state no call creates an administrator.
  pub create_admin_refused :
      (is_argon2id : Bytes → Bool) (name verifier : Bytes) (hook : Option (ℕ → Result (Unit {0})))
      (w : World) (i : ℕ)
      → IsClosed w.db
      → (create_admin random is_argon2id (some seal) name verifier hook w).0 ≢ ok i
  create_admin_refused is_argon2id name verifier hook w i closed h =
      let (s, argon, same) = reaches is_argon2id name verifier hook w i h in
      refused_closed name verifier hook s _ i (reconcile_stays_closed random seal laws w closed)
        (ap (λ (r : Result ℕ × World). r.0) (sym same) ∙ h)

-- Exactly once: after a success no later call succeeds on the tables it left, whatever seal, random
-- source, name, hash or hook it is given and whatever fails in it.
pub created_once :
    (random random' : ℕ → Option Bytes) (seal seal' : Seal) (is_argon2id : Bytes → Bool)
    (name name' verifier verifier' : Bytes) (hook hook' : Option (ℕ → Result (Unit {0})))
    (w w' : World) (i j : ℕ)
    → SealLaws seal
    → SealLaws seal'
    → (create_admin random is_argon2id (some seal) name verifier hook w).0 ≡ ok i
    → w'.db ≡ (create_admin random is_argon2id (some seal) name verifier hook w).1.db
    → (create_admin random' is_argon2id (some seal') name' verifier' hook' w').0 ≢ ok j
created_once random random' seal seal' is_argon2id name name' verifier verifier' hook hook' w w' i j
      laws laws' h same =
    create_admin_refused random' seal' laws' is_argon2id name' verifier' hook' w' j (
      ap is_closed same
      ∙ (create_admin_ok random seal laws is_argon2id name verifier hook w i h).1.2)
