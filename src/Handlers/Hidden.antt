-- ===== src/Handlers/Hidden.antt =====
-- What the login handler of route/v1/user.go replies carries no password hash.
pub mod All
use re_casa_os_user_service.Prelude.{
  ℕ, Bytes, Bool, true, false, ◌≡◌, refl, [], Option, some, not, ◌||◌, is_empty, none,
}
use re_casa_os_user_service.Store.{Result, err, ok}
use re_casa_os_user_service.Users.Lookup.{
  get_user_info_by_id, get_user_info_by_user_name, without_password,
}
use re_casa_os_user_service.Session.Events.{log_credential_event}
use re_casa_os_user_service.Session.Lockout.{check_login_lockout, record_login_success}
use re_casa_os_user_service.Password.{Kdf}
use re_casa_os_user_service.Handlers.{Reply, password_in}
use re_casa_os_user_service.Model.{User, EventType, Db}
use re_casa_os_user_service.Store.Returns.{
  Returns, Returns-silent, Returns-bind, Returns-ignore, Returns-time_now, Returns-attempt,
  Returns-pure, Returns-if, Returns-interleave,
}
use re_casa_os_user_service.Tokens.{Crypto}
use re_casa_os_user_service.Session.Access.{find_user}
use re_casa_os_user_service.Handlers.Login.{
  after_authentication, login_with, refuse_login, unless_locked, issued_reply, failure_reply,
  login_rate_limited, login_key, is_invalid_credentials, post_user_login, login_body, LoginRequest,
}
use re_casa_os_user_service.Users.{find_by_username}
use re_casa_os_user_service.Session.Issue.{IssuedSession, LoginMoment}

abbrev pub Hides : Reply → Type 0
Hides r = password_in r.body ≡ []

pub log-Returns :
    (i : ℕ) (t : EventType) (b : Bool) (source detail : Bytes)
    → Returns (λ u. Unit {0}) (log_credential_event i t b source detail)
unfolding log_credential_event
log-Returns i t b source detail = Returns-silent _ false tt _ tt (Returns-ignore _)

-- A user without a hash.
abbrev pub IsPublic : User → Type 0
IsPublic u = u.password ≡ []

pub by_id-IsPublic : (i : ℕ) → Returns IsPublic (get_user_info_by_id i)
unfolding get_user_info_by_id
by_id-IsPublic i = record { at = λ w. without_password (find_user i) w }

pub by_name-IsPublic : (name : Bytes) → Returns IsPublic (get_user_info_by_user_name name)
unfolding get_user_info_by_user_name
by_name-IsPublic name = record { at = λ w. without_password (find_by_username name) w }

pub lockout-Returns :
    (key : Bytes) (now : ℕ) → Returns (λ r. Unit {0}) (check_login_lockout key now)
unfolding check_login_lockout
lockout-Returns key now =
    Returns-silent _ _ _ _ tt
      (Returns-bind _ _ _ _ (Returns-attempt _) (λ r _. Returns-pure _ _ tt))

pub success-Returns : (key : Bytes) → Returns (λ r. Unit {0}) (record_login_success key)
unfolding record_login_success
success-Returns key = Returns-silent _ _ _ _ tt (Returns-ignore _)

module _ (k : Kdf) (others : LoginMoment → Db → Db) (c : Crypto) (ties : Bytes → Bytes → Bool) where
  failure-Hides : (r : Result (Bool × ℕ)) → Returns Hides (failure_reply r)
  unfolding failure_reply password_in login_rate_limited
  failure-Hides (err e) = Returns-pure _ _ refl
  failure-Hides (ok (true, n)) =
      Returns-bind _ _ _ _ (log-Returns _ _ _ _ _) (λ u _. Returns-pure _ _ refl)
  failure-Hides (ok (false, n)) =
      Returns-bind _ _ _ _ (log-Returns _ _ _ _ _) (λ u _. Returns-pure _ _ refl)

  refuse-Hides : (key : Bytes) (now : ℕ) → Returns Hides (refuse_login key now)
  unfolding refuse_login
  refuse-Hides key now = Returns-bind _ _ _ _ (Returns-attempt _) (λ r _. failure-Hides r)

  issued-Hides : (u : User) (r : Result IssuedSession) → Returns Hides (issued_reply u r)
  unfolding issued_reply password_in
  issued-Hides u (err e) = Returns-pure _ _ refl
  issued-Hides u (ok issued) =
      Returns-bind _ _ _ _ (log-Returns _ _ _ _ _)
        λ x _. Returns-bind _ _ _ _ Returns-time_now (λ at _. Returns-pure _ _ refl)

  after-Hides :
      (key : Bytes) (now : ℕ) (r : Result User)
      → Returns Hides (after_authentication k others c ties key now r)
  unfolding after_authentication password_in
  after-Hides key now (err e) =
      Returns-if _ (is_invalid_credentials e) _ _ (refuse-Hides key now) (Returns-pure _ _ refl)
  after-Hides key now (ok u) = Returns-bind _ _ _ _ (Returns-interleave _) λ y _.
      Returns-bind _ _ _ _ (success-Returns key) λ x _.
        Returns-bind _ _ _ _ (Returns-interleave _)
          λ z _. Returns-bind _ _ _ _ (Returns-attempt _) (λ r _. issued-Hides u r)

  unless_locked-Hides :
      (name secret : Bytes) (now : ℕ) (lock : Bool × ℕ)
      → Returns Hides (unless_locked k others c ties name secret now lock)
  unfolding unless_locked password_in login_rate_limited
  unless_locked-Hides name secret now (true, n) = Returns-pure _ _ refl
  unless_locked-Hides name secret now (false, n) =
      Returns-bind _ _ _ _ (Returns-interleave _)
        λ y _. Returns-bind _ _ _ _ (Returns-attempt _) (λ r _. after-Hides (login_key name) now r)

  pub login_with-Hides :
      (name secret : Bytes) → Returns Hides (login_with k others c ties name secret)
  unfolding login_with
  login_with-Hides name secret = Returns-bind _ _ _ _ Returns-time_now λ now _.
      Returns-bind _ _ _ _ (lockout-Returns (login_key name) now)
        (λ lock _. unless_locked-Hides name secret now lock)

  body-Hides :
      (trailing : Bool) (body : Option (Bytes × Bytes))
      → Returns Hides (login_body k others c ties trailing body)
  unfolding login_body password_in
  body-Hides trailing none = Returns-pure _ _ refl
  body-Hides trailing (some (name, secret)) =
      Returns-if _ (trailing || is_empty name || is_empty secret) _ _ (Returns-pure _ _ refl)
        (login_with-Hides name secret)

  pub login-Hides :
      (request : LoginRequest) → Returns Hides (post_user_login k others c ties request)
  unfolding post_user_login password_in login_rate_limited
  login-Hides request =
      Returns-if _ (not request.allowed) _ _ (Returns-pure _ _ refl)
        (body-Hides request.trailing request.decoded)
