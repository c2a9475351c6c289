-- ===== src/Session/Issue.antt =====
-- service/session_issue.go: minting pairs at login and at refresh.
mod Tests
pub mod Refreshed
use re_casa_os_user_service.Prelude.{
  ℕ, ◌+◌, Bytes, codes, Bool, not, Option, none, some, ◌==◌, is_some, is_empty, bytes_eq,
  if◌then◌else◌, ◌&&◌, itoa,
}
use re_casa_os_user_service.Prelude.Int.{pos, int_eq}
use re_casa_os_user_service.Model.{User, RefreshSession, Db}
use re_casa_os_user_service.Store.{
  or_error, M, Result, ok, err, invalid_argument, store_failure, refresh_signing, rate_limit_locked,
  invalid_refresh_session, pure, raise, ◌>>=◌, ◌>>◌, refuse_if, unless_ready, or_err, attempt,
  query, time_now, lift, interleave,
}
use re_casa_os_user_service.Tokens.{
  Crypto, SessionClaims, access_token_lifetime, refresh_token_lifetime, new_token_id,
  mint_access_token, mint_refresh_token, validate_session_refresh_token,
}
use re_casa_os_user_service.Session.Access.{find_user}
use re_casa_os_user_service.Session.Refresh.{
  create_refresh_session, rotate_refresh_session, Moment, before_lookup, before_rotation,
  before_success, before_prune,
}
use re_casa_os_user_service.Session.Lockout.{
  login_attempt_key, check_login_lockout, record_login_failure, record_login_success, is_locked,
}
use re_casa_os_user_service.Session.Prune.{prune_auth_state}

pub record IssuedSession : Type 0 where
  pub user : User
  pub session_id : Bytes
  pub access_token : Bytes
  pub refresh_token : Bytes
  pub issued_at : ℕ
  pub expires_at : ℕ

unfoldable pub issued_pair : User → Bytes → Bytes → Bytes → ℕ → IssuedSession
issued_pair user session_id access refresh now = record {
  user = user;
  session_id = session_id;
  access_token = access;
  refresh_token = refresh;
  issued_at = now;
  expires_at = now + access_token_lifetime;
}

unfoldable pub issue_session_pair : Crypto → User → ℕ → M IssuedSession
issue_session_pair c user now = do
  session_id ← new_token_id c
  access ←
      or_error refresh_signing
        (mint_access_token c user.username user.id user.token_version session_id)
  refresh ←
      or_error refresh_signing
        (mint_refresh_token c user.username user.id user.token_version session_id)
  create_refresh_session user.id (c.sha256_hex refresh) now (now + refresh_token_lifetime)
      session_id
  pure (issued_pair user session_id access refresh now)

-- Count a failed refresh, then report it; a failure to count is reported instead.
unfoldable pub refuse_refresh : {A : Type 0} → Bytes → ℕ → M A
refuse_refresh lock_key now = do
  _ ← record_login_failure lock_key now
  raise invalid_refresh_session

unfoldable pub refresh_lock_key : ℕ → Bytes
refresh_lock_key user_id = login_attempt_key (codes "refresh") (itoa user_id)

-- The user that the claims name, if the row still agrees with them.
unfoldable pub agreed_user : SessionClaims → Result (Option User) → Option User
agreed_user claims (ok (some user)) =
    if bytes_eq user.username claims.username
      && int_eq (pos user.token_version) claims.token_version
    then some user
    else none
agreed_user claims (ok none) = none
agreed_user claims (err e) = none

-- The points of a login at which other requests may commit.
pub data LoginMoment : Type 0 where
  before_authentication before_upgrade before_reset before_issue before_minting before_sweep :
      LoginMoment

-- `others` is what other requests commit at each point, and `ties` is SQLite's order of revoked tokens
-- with one expiry (Session/Prune).
module _ (c : Crypto) (ties : Bytes → Bytes → Bool) (others : LoginMoment → Db → Db) where
  unfoldable pub issue_login_session : ℕ → ℕ → M IssuedSession
  issue_login_session user_id now = do
    unless_ready (user_id == 0) invalid_argument
    found ← query (find_user user_id)
    user ← or_err found store_failure
    interleave (others before_minting)
    issued ← issue_session_pair c user now
    interleave (others before_sweep)
    prune_auth_state ties now
    pure issued

-- `others` is what other requests commit at the points of a refresh.
module _ (c : Crypto) (ties : Bytes → Bytes → Bool) (others : Moment → Db → Db) where
  unfoldable pub after_rotation :
      Bytes → ℕ → IssuedSession → Result RefreshSession → M IssuedSession
  after_rotation lock_key now issued (ok _) = do
    interleave (others before_success)
    record_login_success lock_key
    interleave (others before_prune)
    prune_auth_state ties now
    pure issued
  after_rotation lock_key now issued (err invalid_refresh_session) = refuse_refresh lock_key now
  after_rotation lock_key now issued (err e) = raise e

  unfoldable pub reissue : Bytes → Bytes → ℕ → Option User → M IssuedSession
  reissue lock_key presented now none = refuse_refresh lock_key now
  reissue lock_key presented now (some user) = do
    replacement_id ← or_error invalid_refresh_session (new_token_id c)
    refresh ←
        or_error refresh_signing
          (mint_refresh_token c user.username user.id user.token_version replacement_id)
    access ←
        or_error refresh_signing
          (mint_access_token c user.username user.id user.token_version replacement_id)
    interleave (others before_rotation)
    outcome ← attempt (
        rotate_refresh_session others (c.sha256_hex presented) replacement_id (c.sha256_hex refresh)
          now (now + refresh_token_lifetime) now)
    after_rotation lock_key now (issued_pair user replacement_id access refresh now) outcome

  unfoldable pub issue_refreshed_tokens : Bytes → ℕ → M IssuedSession
  issue_refreshed_tokens presented now = do
    unless_ready (is_empty presented) invalid_refresh_session
    refuse_if (not (is_some c.private_key && is_some c.public_key)) refresh_signing
    at ← time_now
    claims ← or_error invalid_refresh_session (lift (validate_session_refresh_token c at presented))
    lock ← check_login_lockout (refresh_lock_key claims.user_id) now
    refuse_if (is_locked lock) rate_limit_locked
    interleave (others before_lookup)
    found ← attempt (query (find_user claims.user_id))
    reissue (refresh_lock_key claims.user_id) presented now (agreed_user claims found)
