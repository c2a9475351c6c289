-- ===== src/Users/Reset/Bootstrapped.antt =====
-- service/user.go: what BootstrapAdmin leaves when it succeeds.
use re_casa_os_user_service.Prelude.{
  ℕ, Bytes, Option, List, ◌≡◌, some, true, subst, Bool-cases, sym, inl, arith, inr, codes,
}
use re_casa_os_user_service.Store.{M, ignore, Result, exec, pure, ◌>>=◌, ◌>>◌}
use re_casa_os_user_service.Users.Reset.{bootstrap_admin, sealed_id, command_event}
use re_casa_os_user_service.Password.{Kdf, is_argon2id}
use re_casa_os_user_service.Bootstrap.State.{Seal}
use re_casa_os_user_service.Model.{User, Db, EventType, bootstrap_created}
use re_casa_os_user_service.Bootstrap.State.Closed.{SealLaws}
use re_casa_os_user_service.Store.Keeps.{
  Keeps, Keeps-bind, Keeps-refuse_if, Keeps-attempt, Keeps-lift, Keeps-draw, Keeps-pure,
}
use re_casa_os_user_service.Users.{new_hash}
use re_casa_os_user_service.Bootstrap.Create.Once.{Created}
use re_casa_os_user_service.Session.Events.{add_event}
use re_casa_os_user_service.Store.Brings.{Brings, Brings-keep, Brings-bind}
use re_casa_os_user_service.Bootstrap.Create.Replay.{create_admin_ok}
use re_casa_os_user_service.Bootstrap.Create.{create_admin}

-- There was no user; now there is exactly the new administrator, with an Argon2id hash, and the
-- marker is not pristine.
abbrev pub Bootstrapped : Kdf → Bytes → List User → ℕ → Db → Type 0
Bootstrapped k name before i d =
    (verifier : Bytes) × (is_argon2id k verifier ≡ true) × Created name verifier i before d

module _ (name verifier : Bytes) (i : ℕ) (us : List User) where
  event-Created :
      (installation_id : Bytes) (j : ℕ) (t : EventType) (source : Bytes)
      → Keeps (Created name verifier i us) (command_event installation_id j t source)
  unfolding command_event ignore exec add_event
  event-Created installation_id j t source = record {
    at = λ w h. elim (Bool-cases (w.fails w.calls)) [
      | inl e ↦ ground (arith, e, h)
      | inr e ↦ ground (arith, e, h)
    ];
  }

  sealed-Created : (s : Seal) → SealLaws s → Keeps (Created name verifier i us) (sealed_id (some s))
  unfolding sealed_id
  sealed-Created s laws =
      Keeps-bind _ _
        (Keeps-attempt _
          (record { at = λ w h. subst (Created name verifier i us) (sym (laws.load_outside w)) h }))
        (λ r. Keeps-pure _)

module _ (k : Kdf) (random : ℕ → Option Bytes) (s : Seal) (laws : SealLaws s) where
  returns_id :
      (name verifier : Bytes) (i : ℕ) (us : List User)
      → is_argon2id k verifier ≡ true
      → Brings (Created name verifier i us) (Bootstrapped k name us) (pure i)
  unfolding pure
  returns_id name verifier i us argon = record {
    at = λ w m j z.
        subst (λ y. Bootstrapped k name us y w.db) (ground (arith, z)) (verifier, argon, m);
  }

  create_admin-Brings :
      (name verifier : Bytes) (hook : Option (ℕ → Result (Unit {0}))) (us : List User)
      → Brings
          (λ d. d.users ≡ us)
          (λ i d. (is_argon2id k verifier ≡ true) × Created name verifier i us d)
          (create_admin random (is_argon2id k) (some s) name verifier hook)
  create_admin-Brings name verifier hook us = record {
    at = λ w p i z.
        let (argon, made) =
          create_admin_ok random s laws (is_argon2id k) name verifier hook w i z in
        let d = (create_admin random (is_argon2id k) (some s) name verifier hook w).1.db in
        (argon, subst (λ l. Created name verifier i l d) p made);
  }

  recorded-Brings :
      (name verifier : Bytes) (i : ℕ) (us : List User)
      → is_argon2id k verifier ≡ true
      → Brings (Created name verifier i us) (Bootstrapped k name us) (do
        installation_id ← sealed_id (some s)
        command_event installation_id i bootstrap_created (codes "bootstrap")
        pure i)
  recorded-Brings name verifier i us argon =
      Brings-keep (Created name verifier i us) _ _ _ (sealed-Created name verifier i us s laws)
        (λ x.
          Brings-keep (Created name verifier i us) _ _ _
            (event-Created name verifier i us x i bootstrap_created (codes "bootstrap"))
            (λ v. returns_id name verifier i us argon))

  Brings-given :
      {A : Type 0} (P : Type 0) (Pre : Db → Type 0) (Post : A → Db → Type 0) (m : M A)
      → (P → Brings Pre Post m)
      → Brings (λ d. P × Pre d) Post m
  Brings-given P Pre Post m f = record { at = λ w (q, p) a z. (f q).at w p a z }

  pub bootstrap_admin-Brings :
      (name plaintext : Bytes) (hook : Option (ℕ → Result (Unit {0}))) (us : List User)
      → Brings
          (λ d. d.users ≡ us)
          (Bootstrapped k name us)
          (bootstrap_admin k random (some s) name plaintext hook)
  unfolding bootstrap_admin new_hash
  bootstrap_admin-Brings name plaintext hook us = Brings-keep _ _ _ _ (Keeps-refuse_if _ _) (λ u.
      Brings-keep _ _ _ _ (Keeps-lift _) (λ u'. Brings-keep _ _ _ _ (Keeps-draw _) (λ verifier.
        Brings-bind _ _ _ _ _ (create_admin-Brings name verifier hook us)
          (λ i. Brings-given _ _ _ _ (recorded-Brings name verifier i us)))))
