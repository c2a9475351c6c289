-- ===== src/Auth/Middleware.antt =====
-- route/auth.go: the middleware that every protected route runs first.
pub mod Decision
pub mod Logout
use re_casa_os_user_service.Prelude.{ℕ, Bytes, Bool, not, Option, ◌||◌, List, bytes_eq, itoa}
use re_casa_os_user_service.Prelude.Int.{pos, int_eq}
use re_casa_os_user_service.Store.{
  M, unauthorized, pure, lift, or_error, refuse_if, time_now, ◌>>=◌, ◌>>◌, interleave,
}
use re_casa_os_user_service.Tokens.{Crypto, SessionClaims, validate_session_access_token}
use re_casa_os_user_service.Session.Access.{get_user_token_version, is_access_token_revoked}
use re_casa_os_user_service.Auth.Header.{authorization_token}
use re_casa_os_user_service.Model.{Db}

-- service.AuthenticatedSession; a request is identified by a number.
pub record AuthenticatedSession : Type 0 where
  pub request : ℕ
  pub user_id : ℕ
  pub username : Bytes
  pub token_id : Bytes
  pub expires : Option ℕ

abbrev pub disagrees : SessionClaims → Bytes × ℕ × Bool → Bool
disagrees claims (username, version, known) =
    not known
    || not (bytes_eq username claims.username)
    || not (int_eq (pos version) claims.token_version)

unfoldable pub authenticated : ℕ → SessionClaims → AuthenticatedSession
authenticated request claims = record {
  request = request;
  user_id = claims.user_id;
  username = claims.username;
  token_id = claims.id;
  expires = claims.expires_at;
}

-- The checks against the store; `has_sessions` says that the session validator is not nil, and
-- `others` is what other requests commit between the two.
unfoldable pub admit : (Db → Db) → Bool → ℕ → SessionClaims → M AuthenticatedSession
admit others has_sessions request claims = do
  refuse_if (not has_sessions) unauthorized
  generation ← get_user_token_version claims.user_id
  refuse_if (disagrees claims generation) unauthorized
  interleave others
  revoked ← or_error unauthorized (is_access_token_revoked claims.id)
  refuse_if revoked unauthorized
  pure (authenticated request claims)

unfoldable pub authenticate :
    Crypto → (Db → Db) → Bool → ℕ → Option (List Bytes) → M AuthenticatedSession
authenticate c others has_sessions request values = do
  token ← or_error unauthorized (lift (authorization_token values))
  at ← time_now
  claims ← or_error unauthorized (lift (validate_session_access_token c at token))
  admit others has_sessions request claims

-- The handler gets the session and the internal user_id header.
unfoldable pub access_token_middleware :
    {A : Type 0}
    → Crypto
    → (Db → Db)
    → Bool
    → (AuthenticatedSession → Bytes → M A)
    → ℕ
    → Option (List Bytes)
    → M A
access_token_middleware c others has_sessions next request values = do
  session ← authenticate c others has_sessions request values
  next session (itoa session.user_id)
