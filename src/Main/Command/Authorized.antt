-- ===== src/Main/Command/Authorized.antt =====
-- main.go: what a local command that succeeds was allowed by, and what it did.
use re_casa_os_user_service.Prelude.{
  ℕ, Bytes, not, ◌≡◌, ◌==◌, Option, false, arith, true, List, ◌∙◌, ◌≢◌, ap, sym, inl, inr, refl,
  subst, Bool,
}
use re_casa_os_user_service.Main.Start.{Start, prepare, UserData}
use re_casa_os_user_service.Main.Command.{
  run, run_bootstrap_admin, run_subcommand, when_prepared, subcommand, bootstrap_administrator,
  Subcommand, server, reset_administrator, reset_user, bootstrap_body, run_reset_admin_password,
  run_reset_user_password, Storage, when_opened, Command, Machine, open_bootstrap,
}
use re_casa_os_user_service.Password.{Kdf}
use re_casa_os_user_service.Files.{
  done, bind_done, then_done, reject_done, failure, done-injective, FileError, invalid_credential,
  failed, Answer-cases, Answer,
}
use re_casa_os_user_service.Bootstrap.State.{Seal}
use re_casa_os_user_service.Users.Reset.{Schema}
use re_casa_os_user_service.Main.Credential.{read_credential}
use re_casa_os_user_service.Main.Placement.{require_seal_outside_database}
use re_casa_os_user_service.Store.{M, pure, World, ok, err, command_refused, Result}
use re_casa_os_user_service.Bootstrap.State.Closed.{SealLaws}
use re_casa_os_user_service.Model.{User}
use re_casa_os_user_service.Store.Brings.{Brings, Brings-bind}
use re_casa_os_user_service.Users.Reset.Bootstrapped.{Bootstrapped, bootstrap_admin-Brings}
use re_casa_os_user_service.Files.Disk.{Disk}

-- Root ran the command without arguments and with the process lock, the seal lies outside the
-- database, and the two secrets are those of private credential files.
pub record Authorized (c : Start) (username password : Bytes) : Type 0 where
  pub no_arguments : c.flags ≡ done 0
  pub is_root_user : c.effective_uid ≡ 0
  pub locked : c.lock ≡ done tt
  pub in_systemd : c.has_credentials_directory ≡ true
  pub read_username : read_credential 0 c.username ≡ done username
  pub read_password : read_credential 0 c.password ≡ done password
  pub separate : require_seal_outside_database c.paths c.database c.seal_path ≡ done tt

equal_zero : (n : ℕ) → not (n == 0) ≡ false → n ≡ 0
equal_zero n h = ground (arith, h)

not-not : (b : Bool) → not b ≡ false → b ≡ true
not-not b h = ground (arith, h)

pub prepare-Authorized : (c : Start) (u p : Bytes) → prepare c ≡ done (u, p) → Authorized c u p
unfolding prepare
prepare-Authorized c u p z =
    let (extra, flags, r1) = bind_done _ _ (u, p) z in
    let (none_left, r2) = then_done _ _ (u, p) r1 in
    let (root, r3) = then_done _ _ (u, p) r2 in
    let (lock, r4) = then_done _ _ (u, p) r3 in
    let (here, r5) = then_done _ _ (u, p) r4 in
    let (u', name, r6) = bind_done _ _ (u, p) r5 in
    let (p', secret, r7) = bind_done _ _ (u, p) r6 in
    let (separate, last) = then_done _ _ (u, p) r7 in
    let uid = equal_zero c.effective_uid (reject_done _ failure root) in
    let pair = done-injective last in
    record {
      no_arguments = flags ∙ ap done (equal_zero extra (reject_done _ failure none_left));
      is_root_user = uid;
      locked = lock;
      in_systemd = not-not c.has_credentials_directory (reject_done _ invalid_credential here);
      read_username =
          ap (λ i. read_credential i c.username) (sym uid)
          ∙ name
          ∙ ap (λ (q : Bytes × Bytes). done q.0) pair;
      read_password =
          ap (λ i. read_credential i c.password) (sym uid)
          ∙ secret
          ∙ ap (λ (q : Bytes × Bytes). done q.1) pair;
      separate = separate;
    }

pub not_server : {x : Subcommand} → x ≡ bootstrap_administrator → x ≢ server
not_server e n = ground (arith, e, n)

never_ok : ¬ (◌≡◌ {A = Result (Unit {0})} (err command_refused) (ok tt))
never_ok z = ground (arith, z)

-- The tables are those that the body leaves, and the database opened.
when_opened_ok :
    (r : Answer (Unit {0}) × Disk) (body : M (Unit {0})) (w : World)
    → (when_opened r body w).0 ≡ ok tt
    → (r.0 ≡ done tt) × ((body w).0 ≡ ok tt) × ((when_opened r body w).1 ≡ (r.1, (body w).1))
unfolding when_opened
when_opened_ok (done tt, d) body w z = (refl, z, refl)
when_opened_ok (failed e, d) body w z = absurd (never_ok z)

module _ (k : Kdf) (random : ℕ → Option Bytes) (s : Seal) (schema : Schema)
    (user_data : ℕ → UserData) (g : Storage) (run_server : Command) where
  -- A command is not prepared: it fails and nothing changed.
  refused :
      (c : Start) (e : FileError) (command : Subcommand) (m : Machine)
      → command ≢ server
      → prepare c ≡ failed e
      → run_subcommand k random s schema user_data g run_server c command m
        ≡ (err command_refused, m)
  unfolding run_subcommand run_bootstrap_admin run_reset_admin_password run_reset_user_password
      when_prepared
  refused c e bootstrap_administrator m n z = ground (arith, z)
  refused c e reset_administrator m n z = ground (arith, z)
  refused c e reset_user m n z = ground (arith, z)
  refused c e server m n z = absurd (n refl)

  returned :
      (u : Bytes) (us : List User) (i : ℕ)
      → Brings (Bootstrapped k u us i) (λ x d. (j : ℕ) × Bootstrapped k u us j d) (pure tt)
  unfolding pure
  returned u us i = record { at = λ w b x z. (i, b) }

  bootstrap-Brings :
      (laws : SealLaws s) (u p : Bytes) (us : List User)
      → Brings
          (λ d. d.users ≡ us)
          (λ x d. (i : ℕ) × Bootstrapped k u us i d)
          (bootstrap_body k random s schema user_data g run_server u p)
  unfolding bootstrap_body
  bootstrap-Brings laws u p us =
      Brings-bind _ (Bootstrapped k u us) _ _ _ (bootstrap_admin-Brings k random s laws u p _ us)
        (λ i. returned u us i)

  bootstrap_runs :
      (c : Start) (args : List Bytes) (m : Machine) (u p : Bytes)
      → subcommand args ≡ bootstrap_administrator
      → prepare c ≡ done (u, p)
      → run k random s schema user_data g run_server c args m
        ≡ when_opened
            (open_bootstrap g c m.0)
            (bootstrap_body k random s schema user_data g run_server u p)
            m.1
  unfolding run run_subcommand run_bootstrap_admin when_prepared
  bootstrap_runs c args m u p e q =
      ap (λ x. run_subcommand k random s schema user_data g run_server c x m) e
      ∙ ap
          (λ r.
            when_prepared r (open_bootstrap g c)
              (bootstrap_body k random s schema user_data g run_server) m)
          q

  -- A bootstrap-admin command that succeeds was authorized, its database opened, and it ran on an
  -- empty users table and leaves exactly one user, the administrator named by the first credential.
  -- The files are those that the opening left.
  pub bootstrap_command_ok :
      (c : Start) (args : List Bytes) (m : Machine)
      → SealLaws s
      → subcommand args ≡ bootstrap_administrator
      → (run k random s schema user_data g run_server c args m).0 ≡ ok tt
      → (u : Bytes) × (p : Bytes) × Authorized c u p
        × ((open_bootstrap g c m.0).0 ≡ done tt)
        × ((run k random s schema user_data g run_server c args m).1.0 ≡ (open_bootstrap g c m.0).1)
        × (i : ℕ) × Bootstrapped k u m.1.db.users i
            (run k random s schema user_data g run_server c args m).1.1.db
  unfolding run
  bootstrap_command_ok c args m laws e z = elim (Answer-cases (prepare c)) [
    | inl ((u, p), q) ↦
        let same = bootstrap_runs c args m u p e q in
        let (opened, succeeded, after) =
          when_opened_ok (open_bootstrap g c m.0)
            (bootstrap_body k random s schema user_data g run_server u p) m.1
            (sym (ap (λ (r : Result (Unit {0}) × Machine). r.0) same) ∙ z) in
        let (i, b) = (bootstrap-Brings laws u p m.1.db.users).at m.1 refl tt succeeded in
        let left = ap (λ (r : Result (Unit {0}) × Machine). r.1) same ∙ after in
        (
          u,
          p,
          prepare-Authorized c u p q,
          opened,
          ap (λ (n : Machine). n.0) left,
          i,
          subst (λ d. Bootstrapped k u m.1.db.users i d) (sym (ap (λ (n : Machine). n.1.db) left))
              b,
        )
    | inr (x, q) ↦ absurd (
        never_ok (
          sym (
            ap (λ (r : Result (Unit {0}) × Machine). r.0)
              (refused c x (subcommand args) m (not_server e) q))
          ∙ z))
  ]
