-- ===== src/Users/Change.antt =====
-- Changing a password in service/user.go.
use re_casa_os_user_service.Prelude.{
  ℕ, Bytes, ◌≤◌, length, ◌≡◌, false, arith, some, count_where, update_where, Option-cases, inl, inr,
  none, ap, ◌≢◌, ◌∙◌,
}
use re_casa_os_user_service.Password.{Kdf, verify, hash}
use re_casa_os_user_service.Users.{
  validate_new_password, has_line_byte, change_user_password, swap_password, new_hash, holds,
  with_new_password, commit_password, refuse_change,
}
use re_casa_os_user_service.Model.{Db, User}
use re_casa_os_user_service.Store.{World, ◌>>=◌, ok, refuse_if, Result-cases, ticked, Result}
use re_casa_os_user_service.Session.Refresh.{revoke_user_sessions, revoke_sessions}
use re_casa_os_user_service.Session.Events.{log_credential_event, stamped, add_event}
use re_casa_os_user_service.Session.Access.{find_user}

-- A new password is accepted exactly if it has 12 to 1024 bytes, none of them NUL, CR or LF.
pub validate_new_password_lem :
    (p : Bytes)
    → ((12 ≤ length p) × (length p ≤ 1024) × (has_line_byte p ≡ false)
        → validate_new_password p ≡ ok tt)
      × (validate_new_password p ≡ ok tt
          → (12 ≤ length p) × (length p ≤ 1024) × (has_line_byte p ≡ false))
unfolding validate_new_password
validate_new_password_lem p = (λ h. ground arith, λ h. ground arith)

commit_ok :
    (k : Kdf) (others : Db → Db) (user : User) (new : Bytes) (w : World)
    → (commit_password k others user new w).0 ≡ ok tt
    → (verifier : Bytes) × (hash k new (k.salts w.draws) ≡ ok verifier)
      × (count_where (holds user.id user.password) (others w.db).users ≡ 1)
      × ((commit_password k others user new w).1.db.users
          ≡ update_where
              (holds user.id user.password)
              (with_new_password verifier w.clock)
              (others w.db).users)
unfolding ◌>>=◌ commit_password swap_password new_hash revoke_user_sessions revoke_sessions
    log_credential_event stamped add_event refuse_if
commit_ok k others user new w h = elim (Result-cases (hash k new (k.salts w.draws))) [
  | inr (x, e') ↦ absurd (ground (arith, e'))
  | inl (verifier, e') ↦ (verifier, e', ground (arith, e'), ground (arith, e'))
]

module _ (k : Kdf) (others : Db → Db) (i : ℕ) (old new : Bytes) (w : World) where
  reaches_commit :
      (user : User)
      → find_user i w.db ≡ some user
      → (change_user_password k others i old new w).0 ≡ ok tt
      → (verify k user.password old ≡ ok tt)
        × (validate_new_password new ≡ ok tt)
        × (change_user_password k others i old new w ≡ commit_password k others user new (ticked w))
  unfolding ◌>>=◌ change_user_password refuse_if refuse_change
  reaches_commit user f h = elim (Result-cases (verify k user.password old)) [
    | inr (x, e) ↦ absurd (ground (arith, f, e))
    | inl (x, e) ↦ (ground (arith, f, e), ground (arith, f, e), ground (arith, f, e))
  ]

  needs_row : find_user i w.db ≡ none → (change_user_password k others i old new w).0 ≢ ok tt
  unfolding ◌>>=◌ change_user_password refuse_if
  needs_row f h = ground (arith, f)

  -- A change that succeeds verified the old password against the row of the user, and the row
  -- still held that verifier when the new one was stored, whatever others did in between: exactly
  -- that row gets the hash of the new password under the next salt, the next credential generation and the present time.
  pub change_ok :
      (change_user_password k others i old new w).0 ≡ ok tt
      → (user : User) × (verifier : Bytes) × (find_user i w.db ≡ some user)
        × (verify k user.password old ≡ ok tt)
        × (validate_new_password new ≡ ok tt)
        × (hash k new (k.salts w.draws) ≡ ok verifier)
        × (count_where (holds user.id user.password) (others w.db).users ≡ 1)
        × ((change_user_password k others i old new w).1.db.users
            ≡ update_where
                (holds user.id user.password)
                (with_new_password verifier w.clock)
                (others w.db).users)
  change_ok h = elim (Option-cases (find_user i w.db)) [
    | inl e ↦ absurd (needs_row e h)
    | inr (user, e) ↦
        let (a, b, same) = reaches_commit user e h in
        let (verifier, made, c, d) = commit_ok k others user new (ticked w) (rw same at h) in
        (
          user,
          verifier,
          e,
          a,
          b,
          made,
          c,
          ap (λ (r : Result (Unit {0}) × World). r.1.db.users) same ∙ d,
        )
  ]
