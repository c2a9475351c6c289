-- ===== src/Users/Reset/Accounts.antt =====
-- What the resets of service/user.go leave alone.
use re_casa_os_user_service.Prelude.{
  map-update_where, false, true, ℕ, Bytes, Bool, Option, some, List, ◌≡◌, refl, map, subst, arith,
  true, sym, ap, ◌+◌, ◌∙◌, codes,
}
use re_casa_os_user_service.Session.Access.{has_id}
use re_casa_os_user_service.Store.Keeps.{
  Keeps, Keeps-pure, keeps_rules, Keeps-exec, Keeps-statement,
}
use re_casa_os_user_service.Bootstrap.State.{Seal, reconcile_state, with_immediate_transaction}
use re_casa_os_user_service.Users.Reset.{
  reset_body, replace_verifier, prepare_table, reset_admin_password, load_unique, command_event,
  drop_sessions, Target, reset_user_password, if_present, reset_sealed, reset_reconciled,
  reset_password, Schema, administrator, is_target, replaced, regular, bump_version,
}
use re_casa_os_user_service.Model.{Db, User, EventType, State}
use re_casa_os_user_service.Store.{exec, ignore, statement, World}
use re_casa_os_user_service.Bootstrap.State.Closed.{SealLaws}
use re_casa_os_user_service.Password.{Kdf}
use re_casa_os_user_service.Session.Events.{add_event}
use re_casa_os_user_service.Users.{new_hash}
use re_casa_os_user_service.Bootstrap.State.UsersKept.{reconcile-HasUsers}

-- The identity of an account.
abbrev pub account : User → ℕ × Bytes × Bytes
account u = (u.id, u.username, u.role)

abbrev HasAccounts : List (ℕ × Bytes × Bytes) → Db → Type 0
HasAccounts accounts d = map account d.users ≡ accounts

module _ (accounts : List (ℕ × Bytes × Bytes)) where
  replace-HasAccounts :
      (target : Target) (row : User) (name verifier : Bytes) (at : ℕ)
      → Keeps (HasAccounts accounts) (statement (replace_verifier target row name verifier at))
  unfolding replace_verifier
  replace-HasAccounts target row name verifier at = Keeps-statement _ λ d h.
      map-update_where account (is_target target row name) (replaced verifier at) (λ u. refl)
        d.users
      ∙ h

  bump-HasAccounts : (i : ℕ) → Keeps (HasAccounts accounts) (exec (bump_version i))
  unfolding bump_version
  bump-HasAccounts i = Keeps-exec _ λ d h.
      map-update_where account (has_id i) (λ u. record u { token_version = u.token_version + 1 })
        (λ u. refl) d.users
      ∙ h

  drop-HasAccounts : (i : ℕ) → Keeps (HasAccounts accounts) (exec (drop_sessions i))
  unfolding drop_sessions
  drop-HasAccounts i = Keeps-exec _ λ d h. h

  same-HasAccounts : Keeps (HasAccounts accounts) (exec (λ d. d))
  same-HasAccounts = Keeps-exec _ λ d h. h

  load-HasAccounts :
      (target : Target) (name : Bytes) → Keeps (HasAccounts accounts) (load_unique target name)
  unfolding load_unique
  load-HasAccounts target name = search keeps_rules depth 12

  body-HasAccounts :
      (target : Target) (schema : Schema) (s : State) (name verifier : Bytes)
      → Keeps (HasAccounts accounts) (reset_body target schema s name verifier)
  unfolding reset_body if_present
  body-HasAccounts target schema s name verifier =
      search
        (keeps_rules, load-HasAccounts, replace-HasAccounts, bump-HasAccounts, drop-HasAccounts)
        depth 20

  event-HasAccounts :
      (installation_id : Bytes) (i : ℕ) (t : EventType) (source : Bytes)
      → Keeps (HasAccounts accounts) (command_event installation_id i t source)
  unfolding command_event ignore exec add_event
  event-HasAccounts installation_id i t source = record { at = λ w h. ground (arith, h) }

  prepare-HasAccounts :
      (b : Bool) (seal_id : Option Bytes) → Keeps (HasAccounts accounts) (prepare_table b seal_id)
  unfolding prepare_table
  prepare-HasAccounts true seal_id = Keeps-pure tt
  prepare-HasAccounts false seal_id = search (keeps_rules, same-HasAccounts)

  module _ (random : ℕ → Option Bytes) (seal : Seal) (laws : SealLaws seal) where
    seal-HasAccounts : Keeps (HasAccounts accounts) seal.load
    seal-HasAccounts = record {
      at = λ w h. subst (HasAccounts accounts) (sym (laws.load_outside w)) h;
    }

    reconcile-HasAccounts : Keeps (HasAccounts accounts) (reconcile_state random (some seal))
    reconcile-HasAccounts = record {
      at = λ w h.
          ap (λ us. map account us) ((reconcile-HasUsers random seal laws w.db.users).at w refl)
          ∙ h;
    }

    reconciled-HasAccounts :
        (target : Target) (schema : Schema) (name verifier : Bytes)
        → Keeps (HasAccounts accounts) (reset_reconciled random seal target schema name verifier)
    unfolding reset_reconciled with_immediate_transaction
    reconciled-HasAccounts target schema name verifier =
        search
          (keeps_rules, reconcile-HasAccounts, seal-HasAccounts, same-HasAccounts, body-HasAccounts)
          depth 20

    sealed-HasAccounts :
        (target : Target) (schema : Schema) (name verifier : Bytes)
        → Keeps (HasAccounts accounts) (reset_sealed random (some seal) target schema name verifier)
    unfolding reset_sealed
    sealed-HasAccounts target schema name verifier =
        search
          (
            keeps_rules, reconciled-HasAccounts, seal-HasAccounts, load-HasAccounts,
            prepare-HasAccounts,
          )
          depth 20

    reset-HasAccounts :
        (k : Kdf) (target : Target) (schema : Schema) (source name plaintext : Bytes)
        → Keeps
            (HasAccounts accounts)
            (reset_password k random (some seal) target schema source name plaintext)
    unfolding reset_password new_hash
    reset-HasAccounts k target schema source name plaintext =
        search (keeps_rules, sealed-HasAccounts, event-HasAccounts) depth 20

-- Whatever the outcome of a reset of either kind: no account is added or removed, and none gets
-- another id, name or role. The seal stands outside the database.
pub reset_keeps_accounts :
    (k : Kdf) (random : ℕ → Option Bytes) (seal : Seal) (schema : Schema) (name plaintext : Bytes)
    (w : World)
    → SealLaws seal
    → (map account (reset_admin_password k random (some seal) schema name plaintext w).1.db.users
        ≡ map account w.db.users)
      × (map account (reset_user_password k random (some seal) schema name plaintext w).1.db.users
          ≡ map account w.db.users)
unfolding reset_admin_password reset_user_password
reset_keeps_accounts k random seal schema name plaintext w laws = (
  (reset-HasAccounts (map account w.db.users) random seal laws k administrator schema
        (codes "admin-reset") name plaintext).at
      w refl,
  (reset-HasAccounts (map account w.db.users) random seal laws k regular schema (codes "user-reset")
        name plaintext).at
      w refl,
)
