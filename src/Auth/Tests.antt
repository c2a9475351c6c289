-- ===== src/Auth/Tests.antt =====
-- Runs of route/auth.go with a toy token format.
use re_casa_os_user_service.Prelude.{
  Bytes, codes, ◌≡◌, refl, some, [], ◌∷◌, Option, List, true, bytes_eq, count_where, find_where,
}
use re_casa_os_user_service.Store.{◌>>=◌, World, ok, refuse_if}
use re_casa_os_user_service.Auth.Middleware.{
  authenticate, admit, AuthenticatedSession, authenticated,
}
use re_casa_os_user_service.Auth.Header.{
  authorization_token, token_of, check_token, strip_scheme, count_byte, all_bytes, is_token_byte,
  is_malformed, starts_with_space, is_space, ends_in_space, exists_byte, is_forbidden,
  has_fold_prefix, to_lower, after_bearer,
}
use re_casa_os_user_service.Tokens.{
  SessionClaims, validate_session_access_token, validate_session_token, claims_rejected, key_for,
}
use re_casa_os_user_service.Prelude.Int.{pos}
use re_casa_os_user_service.Samples.{world_of, two_users, toy_crypto}
use re_casa_os_user_service.Model.{User}
use re_casa_os_user_service.Session.Access.{
  find_user, has_jti, get_user_token_version, is_access_token_revoked, revoke_access_token,
}
use re_casa_os_user_service.Auth.Middleware.Decision.{authenticate_ok}
use re_casa_os_user_service.Session.Refresh.{logout_session, revoke_user_refresh_session}

abbrev start : World
start = world_of two_users

abbrev header : Option (List Bytes)
header = some (codes "Bearer a.b.c" ∷ [])

admitted :
    (s : AuthenticatedSession) × ((authenticate toy_crypto (λ d. d) true 9 header start).0 ≡ ok s)
unfolding ◌>>=◌ authenticate authorization_token token_of check_token strip_scheme
    validate_session_access_token validate_session_token claims_rejected key_for admit authenticated
    bytes_eq get_user_token_version is_access_token_revoked find_user find_where count_where
    refuse_if is_malformed starts_with_space is_space ends_in_space exists_byte is_forbidden
    has_fold_prefix to_lower after_bearer count_byte all_bytes is_token_byte
admitted = (_, refl)

authenticate_ok_example :
    (token : Bytes) × (claims : SessionClaims) × (u : User) × (authorization_token header
      ≡ ok token)
    × (validate_session_access_token toy_crypto start.clock token ≡ ok claims)
    × (find_user claims.user_id start.db ≡ some u)
    × (bytes_eq u.username claims.username ≡ true)
    × (claims.token_version ≡ pos u.token_version)
    × (count_where (has_jti claims.id) start.db.revoked ≡ 0)
    × (admitted.0 ≡ authenticated 9 claims)
authenticate_ok_example =
    authenticate_ok toy_crypto true 9 header (λ d. d) start admitted.0 admitted.1

abbrev after_logout : World
after_logout = (logout_session 1 (codes "s1") 900 start).1

logout_succeeds : (logout_session 1 (codes "s1") 900 start).0 ≡ ok tt
unfolding ◌>>=◌ logout_session revoke_user_refresh_session revoke_access_token refuse_if
logout_succeeds = refl
