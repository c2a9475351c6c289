-- ===== src/Handlers/Sessions.antt =====
-- route/v1/user.go: refreshing, logging out and reading credential events. `none` for the session is
-- a request that did not pass the middleware.
pub mod Access
use re_casa_os_user_service.Prelude.{
  ℕ, Bytes, Bool, true, false, Option, none, some, if◌then◌else◌, codes, ◌/◌, not, [], ◌==◌, ◌&&◌,
}
use re_casa_os_user_service.Store.{
  ◌>>=◌, ◌>>◌, Result, M, err, pure, time_now, attempt, ok, refresh_session_reused,
  rate_limit_locked, invalid_refresh_session,
}
use re_casa_os_user_service.Auth.Middleware.{AuthenticatedSession}
use re_casa_os_user_service.Model.{
  EventType, refresh_reuse, refresh_failure, second, logout, logout_all, refresh_success, Db,
}
use re_casa_os_user_service.Tokens.{Crypto}
use re_casa_os_user_service.Session.Issue.{IssuedSession, issue_refreshed_tokens}
use re_casa_os_user_service.Handlers.{
  Reply, VerifyInformation, no_store, server_error, reply, client_error, too_many_request,
  status_forbidden, status_unauthorized, success, invalid_params, nothing, verification_failure,
  of_events, too_many_login_requests, of_tokens,
}
use re_casa_os_user_service.Session.Events.{list_credential_events, log_credential_event}
use re_casa_os_user_service.Session.Refresh.{logout_all_sessions, logout_session, Moment}
use re_casa_os_user_service.Users.Lookup.{get_user_info_by_id}
use re_casa_os_user_service.Users.{is_admin}

pub record RefreshRequest : Type 0 where
  pub allowed : Bool
  pub decoded : Option Bytes
  pub trailing : Bool

abbrev pub refresh_unauthorized : Reply
refresh_unauthorized = no_store (reply status_unauthorized verification_failure nothing)

abbrev pub refresh_limited : Reply
refresh_limited = record (no_store (reply too_many_request too_many_login_requests nothing)) {
  retry_after = some 60;
}

unfoldable pub refuse_refreshed : EventType → M Reply
refuse_refreshed event = do
  log_credential_event 0 event false (codes "refresh") []
  pure refresh_unauthorized

abbrev pub refresh_tokens : IssuedSession → VerifyInformation
refresh_tokens issued = record {
  refresh_token = issued.refresh_token;
  access_token = issued.access_token;
  expires_at = issued.expires_at / second;
}

unfoldable pub refreshed_reply : Result IssuedSession → M Reply
refreshed_reply (err refresh_session_reused) = refuse_refreshed refresh_reuse
refreshed_reply (err rate_limit_locked) = pure refresh_limited
refreshed_reply (err invalid_refresh_session) = refuse_refreshed refresh_failure
refreshed_reply (err e) = pure (no_store server_error)
refreshed_reply (ok issued) = do
  log_credential_event issued.user.id refresh_success true (codes "refresh") []
  pure (no_store (reply success success (of_tokens (refresh_tokens issued))))

unfoldable pub refresh_with : Crypto → (Bytes → Bytes → Bool) → (Moment → Db → Db) → Bytes → M Reply
refresh_with c ties others presented = do
  now ← time_now
  issued ← attempt (issue_refreshed_tokens c ties others presented now)
  refreshed_reply issued

unfoldable pub refresh_body :
    Crypto → (Bytes → Bytes → Bool) → (Moment → Db → Db) → Bool → Option Bytes → M Reply
refresh_body c ties others trailing none = pure refresh_unauthorized
refresh_body c ties others trailing (some presented) =
    if trailing then pure refresh_unauthorized else refresh_with c ties others presented

unfoldable pub post_user_refresh_token :
    Crypto → (Bytes → Bytes → Bool) → (Moment → Db → Db) → RefreshRequest → M Reply
post_user_refresh_token c ties others request =
    if not request.allowed
    then pure refresh_limited
    else refresh_body c ties others request.trailing request.decoded

unfoldable pub logged_out : ℕ → EventType → Bytes → Result (Unit {0}) → M Reply
logged_out i event source (err e) = pure (no_store server_error)
logged_out i event source (ok u) = do
  log_credential_event i event true source []
  pure (no_store (reply success success nothing))

abbrev pub expiry_of : AuthenticatedSession → ℕ
expiry_of s = elim s.expires [ none ↦ 0 | some at ↦ at ]

unfoldable pub post_user_logout : Option AuthenticatedSession → M Reply
post_user_logout none = pure refresh_unauthorized
post_user_logout (some s) = do
  outcome ← attempt (logout_session s.user_id s.token_id (expiry_of s))
  logged_out s.user_id logout (codes "logout") outcome

unfoldable pub post_user_logout_all : Option AuthenticatedSession → M Reply
post_user_logout_all none = pure refresh_unauthorized
post_user_logout_all (some s) = do
  outcome ← attempt (logout_all_sessions s.user_id)
  logged_out s.user_id logout_all (codes "logout-all") outcome

unfoldable pub events_reply : ℕ → M Reply
events_reply actor = do
  events ← list_credential_events actor 100
  pure (no_store (reply success success (of_events events)))

-- Another user's events, or all (target 0): for administrators only.
unfoldable pub events_of_target : ℕ → ℕ → M Reply
events_of_target own target =
    if not (target == 0) && target == own then events_reply target else (do
      current ← get_user_info_by_id own
      if not (is_admin current)
          then pure (no_store (reply status_forbidden client_error nothing))
          else events_reply target)

-- The query parameter: absent, not a number of at least zero, or a number.
pub data Requested : Type 0 where
  absent malformed : Requested
  target : ℕ → Requested

unfoldable pub events_for : ℕ → Requested → M Reply
events_for own absent = events_reply own
events_for own malformed = pure (no_store (reply client_error invalid_params nothing))
events_for own (target t) = events_of_target own t

unfoldable pub get_credential_events : Option AuthenticatedSession → Requested → M Reply
get_credential_events none requested = pure refresh_unauthorized
get_credential_events (some s) requested = events_for s.user_id requested
