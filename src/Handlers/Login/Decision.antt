-- ===== src/Handlers/Login/Decision.antt =====
-- What PostUserLogin of route/v1/user.go decides.
use re_casa_os_user_service.Prelude.{
  ℕ, Bytes, Bool, true, false, ◌≡◌, refl, arith, ◌≢◌, Bool-cases, Option, not, some, ◌||◌, inr, inl,
  is_empty, none, subst,
}
use re_casa_os_user_service.Store.{◌>>=◌, World, Result, ok, err, Result-cases}
use re_casa_os_user_service.Session.Lockout.{
  check_login_lockout, record_login_failure, record_login_success,
}
use re_casa_os_user_service.Handlers.Login.{
  failure_reply, issued_reply, login_rate_limited, login_tokens, without_hash, refuse_login,
  LoginRequest, unless_locked, login_body, login_with, post_user_login, after_authentication,
  login_key, is_invalid_credentials, before_issue, before_upgrade, before_authentication,
  before_reset,
}
use re_casa_os_user_service.Session.Events.{log_credential_event, stamped}
use re_casa_os_user_service.Model.{User, Db}
use re_casa_os_user_service.Session.Issue.{IssuedSession, issue_login_session, LoginMoment}
use re_casa_os_user_service.Handlers.{Reply, success, of_session, VerifyInformation}
use re_casa_os_user_service.Password.{Kdf, verify}
use re_casa_os_user_service.Tokens.{Crypto}
use re_casa_os_user_service.Users.{authenticate_user, find_by_username}
use re_casa_os_user_service.Users.Login.{Admitted, authenticate_user_ok}

check_readonly : (key : Bytes) (now : ℕ) (w : World) → (check_login_lockout key now w).1.db ≡ w.db
unfolding ◌>>=◌ check_login_lockout
check_readonly key now w = ground arith

-- The world after others committed.
abbrev within : (Db → Db) → World → World
within f w = record w { db = f w.db }

failure_not_success :
    (r : Result (Bool × ℕ)) (w : World) (rep : Reply)
    → (failure_reply r w).0 ≡ ok rep
    → rep.status ≢ success
unfolding ◌>>=◌ failure_reply log_credential_event login_rate_limited
failure_not_success (err e) w rep h = ground (arith, h)
failure_not_success (ok (true, n)) w rep h = ground (arith, h)
failure_not_success (ok (false, n)) w rep h = ground (arith, h)

issued_ok :
    (u : User) (r : Result IssuedSession) (w : World) (rep : Reply)
    → (issued_reply u r w).0 ≡ ok rep
    → rep.status ≡ success
    → (issued : IssuedSession) × (r ≡ ok issued)
      × (rep.body ≡ of_session (login_tokens issued w.clock) (without_hash u))
unfolding ◌>>=◌ issued_reply log_credential_event stamped
issued_ok u (err e) w rep h s = absurd (ground (arith, h, s))
issued_ok u (ok issued) w rep h s = (issued, refl, ground (arith, h, s))

refusal_not_success :
    (key : Bytes) (now : ℕ) (w : World) (rep : Reply)
    → (refuse_login key now w).0 ≡ ok rep
    → rep.status ≢ success
unfolding ◌>>=◌ refuse_login
refusal_not_success key now w rep =
    failure_not_success (record_login_failure key now w).0 (record_login_failure key now w).1 rep

module _ (k : Kdf) (others : LoginMoment → Db → Db) (c : Crypto) (ties : Bytes → Bytes → Bool) where
  succeeded :
      (key : Bytes) (now : ℕ) (u : User) (w : World) (rep : Reply)
      → (after_authentication k others c ties key now (ok u) w).0 ≡ ok rep
      → let w' =
          within
            (others before_issue)
            (record_login_success key (within (others before_reset) w)).1 in
        let r = issue_login_session c ties others u.id now w' in (issued_reply u r.0 r.1).0 ≡ ok rep
  unfolding ◌>>=◌ after_authentication record_login_success
  succeeded key now u w rep h = ground (arith, h)

  after_ok :
      (key : Bytes) (now : ℕ) (r : Result User) (w : World) (rep : Reply)
      → (after_authentication k others c ties key now r w).0 ≡ ok rep
      → rep.status ≡ success
      → (u : User) × (r ≡ ok u)
        × (t : VerifyInformation) × (rep.body ≡ of_session t (without_hash u))
  unfolding ◌>>=◌ after_authentication
  after_ok key now (err e) w rep h s = elim (Bool-cases (is_invalid_credentials e)) [
    | inl t ↦ absurd (refusal_not_success key now w rep (ground (arith, t, h)) s)
    | inr t ↦ absurd (ground (arith, t, h, s))
  ]
  after_ok key now (ok u) w rep h s =
      let w' =
        within (others before_issue)
          (record_login_success key (within (others before_reset) w)).1 in
      let (issued, e, body) =
        issued_ok u (issue_login_session c ties others u.id now w').0
          (issue_login_session c ties others u.id now w').1 rep (succeeded key now u w rep h) s in
      (u, refl, login_tokens issued (issue_login_session c ties others u.id now w').1.clock, body)

  unless_locked_ok :
      (name secret : Bytes) (now : ℕ) (lock : Bool × ℕ) (w : World) (rep : Reply)
      → (unless_locked k others c ties name secret now lock w).0 ≡ ok rep
      → rep.status ≡ success
      → (u : User) × ((authenticate_user k
            (others before_upgrade)
            name
            secret
            (within (others before_authentication) w)).0
          ≡ ok u)
        × (t : VerifyInformation) × (rep.body ≡ of_session t (without_hash u))
  unfolding ◌>>=◌ unless_locked login_rate_limited
  unless_locked_ok name secret now (true, n) w rep h s = absurd (ground (arith, h, s))
  unless_locked_ok name secret now (false, n) w rep h s =
      let w' = within (others before_authentication) w in
      after_ok (login_key name) now (authenticate_user k (others before_upgrade) name secret w').0
        (authenticate_user k (others before_upgrade) name secret w').1 rep h s

  body_ok :
      (trailing : Bool) (body : Option (Bytes × Bytes)) (w : World) (rep : Reply)
      → (login_body k others c ties trailing body w).0 ≡ ok rep
      → rep.status ≡ success
      → (name : Bytes) × (secret : Bytes) × (body ≡ some (name, secret))
        × ((login_with k others c ties name secret w).0 ≡ ok rep)
  unfolding ◌>>=◌ login_body
  body_ok trailing none w rep h s = absurd (ground (arith, h, s))
  body_ok trailing (some (name, secret)) w rep h s =
      elim (Bool-cases (trailing || is_empty name || is_empty secret)) [
        | inl t ↦ absurd (ground (arith, t, h, s))
        | inr t ↦ (name, secret, refl, ground (arith, t, h))
      ]

  request_ok :
      (request : LoginRequest) (w : World) (rep : Reply)
      → (post_user_login k others c ties request w).0 ≡ ok rep
      → rep.status ≡ success
      → (login_body k others c ties request.trailing request.decoded w).0 ≡ ok rep
  unfolding ◌>>=◌ post_user_login login_rate_limited
  request_ok request w rep h s = elim (Bool-cases (not request.allowed)) [
    | inl t ↦ absurd (ground (arith, t, h, s))
    | inr t ↦ ground (arith, t, h)
  ]

  checked :
      (name secret : Bytes) (w : World) (rep : Reply)
      → (login_with k others c ties name secret w).0 ≡ ok rep
      → (lock : Bool × ℕ) × ((unless_locked k others c ties name secret w.clock lock
            (check_login_lockout (login_key name) w.clock w).1).0
          ≡ ok rep)
  unfolding ◌>>=◌ login_with
  checked name secret w rep h =
      elim (Result-cases (check_login_lockout (login_key name) w.clock w).0) [
        | inr (x, e) ↦ absurd (ground (arith, e, h))
        | inl (lock, e) ↦ (lock, ground (arith, e, h))
      ]

  with_ok :
      (name secret : Bytes) (w : World) (rep : Reply)
      → (login_with k others c ties name secret w).0 ≡ ok rep
      → rep.status ≡ success
      → (u : User) × (row : User) × (t : VerifyInformation) × (find_by_username name
            (others before_authentication w.db)
          ≡ some row)
        × (verify k row.password secret ≡ ok tt)
        × Admitted k (others before_upgrade) secret row (others before_authentication w.db) u
        × (rep.body ≡ of_session t (without_hash u))
  unfolding ◌>>=◌ login_with
  with_ok name secret w rep h s =
      let key = login_key name in
      let w' = (check_login_lockout key w.clock w).1 in
      let (lock, ran) = checked name secret w rep h in
      let (u, e, t, body) = unless_locked_ok name secret w.clock lock w' rep ran s in
      let (row, found, right, shape) =
        authenticate_user_ok k (others before_upgrade) name secret
          (within (others before_authentication) w') u e in
      let same = check_readonly key w.clock w in
      (
        u,
        row,
        t,
        subst (λ d. find_by_username name (others before_authentication d) ≡ some row) same found,
        right,
        subst
            (λ d. Admitted k (others before_upgrade) secret row (others before_authentication d) u)
            same shape,
        body,
      )

-- A login is answered with success only to a body with one name and one password: the password was
-- verified against the row of that name, as the tables have it when the check of the lock is over and
-- whatever other requests committed since, and the reply carries that user (as it was read, renewed,
-- or read and verified again) without the hash.
pub login_ok :
    (k : Kdf) (others : LoginMoment → Db → Db) (c : Crypto) (ties : Bytes → Bytes → Bool)
    (request : LoginRequest) (w : World) (rep : Reply)
    → (post_user_login k others c ties request w).0 ≡ ok rep
    → rep.status ≡ success
    → (name : Bytes) × (secret : Bytes) × (u : User) × (row : User) × (t : VerifyInformation)
      × (request.decoded ≡ some (name, secret))
      × (find_by_username name (others before_authentication w.db) ≡ some row)
      × (verify k row.password secret ≡ ok tt)
      × Admitted k (others before_upgrade) secret row (others before_authentication w.db) u
      × (rep.body ≡ of_session t (without_hash u))
login_ok k others c ties request w rep h s =
    let (name, secret, e, ran) =
      body_ok k others c ties request.trailing request.decoded w rep
        (request_ok k others c ties request w rep h s) s in
    let (u, row, t, found, right, shape, body) = with_ok k others c ties name secret w rep ran s in
    (name, secret, u, row, t, e, found, right, shape, body)
