-- ===== src/Session/Issue/Tests.antt =====
-- Runs of service/session_issue.go and of the login failure budget from fresh tables.
use re_casa_os_user_service.Prelude.{
  Bytes, codes, ◌≡◌, refl, none, some, [], ◌∷◌, true, false, Option, Bool, ◌+◌, bytes_eq, ◌-◌,
  arith, ◌<◌, find_where, count_where, exists_where, update_where,
}
use re_casa_os_user_service.Store.{◌>>=◌, World, ok}
use re_casa_os_user_service.Tokens.{
  SessionClaims, Crypto, PublicKey, es256, validate_session_refresh_token, mint_access_token,
  validate_session_token, key_for, claims_rejected, new_token_id, mint_refresh_token,
  mint_session_token,
}
use re_casa_os_user_service.Session.Lockout.{
  find_attempt, check_login_lockout, login_lockout_length, login_attempt_key, record_login_success,
}
use re_casa_os_user_service.Session.Issue.{
  issue_refreshed_tokens, IssuedSession, refresh_lock_key, reissue, agreed_user, after_rotation,
}
use re_casa_os_user_service.Samples.{world_of, toy_crypto, root_claims, two_users}
use re_casa_os_user_service.Session.Lockout.Liveness.{fail_at, five_failures_lock}
use re_casa_os_user_service.Model.{RefreshSession, Db}
use re_casa_os_user_service.Session.Access.{find_user}
use re_casa_os_user_service.Prelude.Int.{int_eq, pos}
use re_casa_os_user_service.Session.Refresh.{
  find_session, rotate_refresh_session, rotate_body, consume, add_session, Moment,
}
use re_casa_os_user_service.Session.Issue.Refreshed.{issue_refreshed_ok}
use re_casa_os_user_service.Session.Prune.{prune_auth_state, prune_all}

abbrev fresh : World
fresh = world_of two_users

no_attempt : find_attempt (codes "login:root") fresh.db ≡ none
unfolding find_attempt find_where mint_access_token
no_attempt = refl

five_failures_lock_example :
    (check_login_lockout
      (codes "login:root")
      600
      (fail_at (codes "login:root") (100 ∷ 200 ∷ 300 ∷ 400 ∷ 500 ∷ []) fresh)).0
    ≡ ok (true, (500 + login_lockout_length) - 600)
five_failures_lock_example =
    five_failures_lock (codes "login:root") 100 200 300 400 500 600 fresh refl (omega arith)
      (omega arith) (omega arith) (omega arith) (omega arith) refl (λ n. refl) no_attempt
      (omega arith)

-- The same toy library, with the claims of a refresh token.
abbrev refresh_claims : SessionClaims
refresh_claims = record root_claims { issuer = codes "refresh" }

abbrev parse_refresh : Option PublicKey → Option SessionClaims
parse_refresh none = none
parse_refresh (some k) = some refresh_claims

abbrev refreshing : Crypto
refreshing = record toy_crypto {
  jwt = record toy_crypto.jwt { parse = λ f at token. parse_refresh (f es256) };
}

abbrev same : Bytes → Bytes → Bool
same a b = false

-- No other request commits.
abbrev alone : Moment → Db → Db
alone m d = d

refreshes :
    (x : IssuedSession) × ((issue_refreshed_tokens refreshing same alone (codes "t1") 100 fresh).0
      ≡ ok x)
unfolding ◌>>=◌ issue_refreshed_tokens validate_session_refresh_token validate_session_token key_for
    claims_rejected bytes_eq check_login_lockout refresh_lock_key login_attempt_key find_attempt
    find_where reissue agreed_user find_user new_token_id mint_refresh_token mint_session_token
    mint_access_token after_rotation rotate_refresh_session rotate_body find_session consume
    count_where add_session exists_where update_where record_login_success prune_auth_state
    prune_all
refreshes = (_, refl)

issue_refreshed_ok_example :
    (claims : SessionClaims) × (row : RefreshSession) × (validate_session_refresh_token refreshing
        100
        (codes "t1")
      ≡ ok claims)
    × (find_user claims.user_id fresh.db ≡ some refreshes.0.user)
    × (bytes_eq refreshes.0.user.username claims.username ≡ true)
    × (int_eq (pos refreshes.0.user.token_version) claims.token_version ≡ true)
    × (find_session (codes "t1") fresh.db ≡ some row)
    × (row.used_at ≡ none)
    × (row.revoked_at ≡ none)
    × (100 < row.expires_at)
issue_refreshed_ok_example =
    issue_refreshed_ok refreshing same alone (codes "t1") 100 fresh refreshes.0 refreshes.1
