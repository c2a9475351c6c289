-- ===== src/Handlers/Login.antt =====
-- route/v1/user.go: PostUserLogin.
pub mod Decision
pub mod Locked
use re_casa_os_user_service.Prelude.{
  ℕ, Bytes, Bool, true, false, Option, none, some, ◌+◌, if◌then◌else◌, codes, ltb, [], ◌*◌, ◌/◌,
  not, ◌||◌, is_empty,
}
use re_casa_os_user_service.Store.{
  ◌>>=◌, ◌>>◌, Error, Result, M, attempt, err, invalid_credentials, pure, time_now, ok, interleave,
}
use re_casa_os_user_service.Model.{
  User, Db, second, minute, hour, login_success, login_lockout, login_failure,
}
use re_casa_os_user_service.Password.{Kdf}
use re_casa_os_user_service.Handlers.{
  Reply, VerifyInformation, no_store, server_error, reply, client_error, too_many_request, nothing,
  too_many_login_requests, get_msg, invalid_params, success, of_session,
  user_not_exist_or_pwd_invalid,
}
use re_casa_os_user_service.Session.Issue.{
  IssuedSession, issue_login_session, LoginMoment, before_authentication, before_reset,
  before_issue, before_upgrade,
}
use re_casa_os_user_service.Session.Lockout.{
  login_attempt_key, record_login_failure, check_login_lockout, record_login_success,
}
use re_casa_os_user_service.Tokens.{Crypto}
use re_casa_os_user_service.Users.{authenticate_user}
use re_casa_os_user_service.Session.Events.{log_credential_event}

-- What arrives: the limiter's answer, the decoded body (none if it is malformed, has an unknown field
-- or is over `maxLoginRequestBodyBytes`), and whether more follows it.
pub record LoginRequest : Type 0 where
  pub allowed : Bool
  pub decoded : Option (Bytes × Bytes)
  pub trailing : Bool

-- retryAfter.Round(time.Second), at least one.
abbrev pub rounded_seconds : ℕ → ℕ
rounded_seconds d = (d + second / 2) / second

abbrev pub retry_seconds : ℕ → ℕ
retry_seconds d = if ltb (rounded_seconds d) 1 then 1 else rounded_seconds d

unfoldable pub login_rate_limited : ℕ → Reply
login_rate_limited retry_after =
    record (no_store (reply too_many_request too_many_login_requests nothing)) {
      retry_after = some (retry_seconds retry_after);
    }

abbrev pub login_invalid : Reply
login_invalid =
    no_store (record (reply client_error client_error nothing) { message = get_msg invalid_params })

abbrev pub login_key : Bytes → Bytes
login_key username = login_attempt_key (codes "login") username

abbrev pub is_invalid_credentials : Error → Bool
is_invalid_credentials invalid_credentials = true
is_invalid_credentials _ = false

unfoldable pub failure_reply : Result (Bool × ℕ) → M Reply
failure_reply (err e) = pure (no_store server_error)
failure_reply (ok (true, retry_after)) = do
  log_credential_event 0 login_lockout false (codes "login") []
  pure (login_rate_limited retry_after)
failure_reply (ok (false, retry_after)) = do
  log_credential_event 0 login_failure false (codes "login") []
  pure (no_store (reply client_error user_not_exist_or_pwd_invalid nothing))

unfoldable pub refuse_login : Bytes → ℕ → M Reply
refuse_login key now = do counted ← attempt (record_login_failure key now); failure_reply counted

abbrev pub login_tokens : IssuedSession → ℕ → VerifyInformation
login_tokens issued at = record {
  refresh_token = issued.refresh_token;
  access_token = issued.access_token;
  expires_at = (at + 3 * hour) / second;
}

abbrev pub without_hash : User → User
without_hash u = record u { password = [] }

unfoldable pub issued_reply : User → Result IssuedSession → M Reply
issued_reply user (err e) = pure (no_store server_error)
issued_reply user (ok issued) = do
  log_credential_event user.id login_success true (codes "login") []
  at ← time_now
  pure (no_store (reply success success (of_session (login_tokens issued at) (without_hash user))))

-- `others` is what other requests commit at each point, and `ties` is SQLite's order of revoked tokens
-- with one expiry (Session/Prune).
module _ (k : Kdf) (others : LoginMoment → Db → Db) (c : Crypto) (ties : Bytes → Bytes → Bool) where
  unfoldable pub after_authentication : Bytes → ℕ → Result User → M Reply
  after_authentication key now (err e) =
      if is_invalid_credentials e then refuse_login key now else pure (no_store server_error)
  after_authentication key now (ok user) = do
    interleave (others before_reset)
    record_login_success key
    interleave (others before_issue)
    issued ← attempt (issue_login_session c ties others user.id now)
    issued_reply user issued

  unfoldable pub unless_locked : Bytes → Bytes → ℕ → Bool × ℕ → M Reply
  unless_locked username password now (true, retry_after) = pure (login_rate_limited retry_after)
  unless_locked username password now (false, retry_after) = do
    interleave (others before_authentication)
    outcome ← attempt (authenticate_user k (others before_upgrade) username password)
    after_authentication (login_key username) now outcome

  unfoldable pub login_with : Bytes → Bytes → M Reply
  login_with username password = do
    now ← time_now
    lock ← check_login_lockout (login_key username) now
    unless_locked username password now lock

  unfoldable pub login_body : Bool → Option (Bytes × Bytes) → M Reply
  login_body trailing none = pure login_invalid
  login_body trailing (some (username, password)) =
      if trailing || is_empty username || is_empty password
      then pure login_invalid
      else login_with username password

  unfoldable pub post_user_login : LoginRequest → M Reply
  post_user_login request =
      if not request.allowed
      then pure (login_rate_limited minute)
      else login_body request.trailing request.decoded
