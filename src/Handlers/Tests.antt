-- ===== src/Handlers/Tests.antt =====
-- Runs of the handlers of route/v1/user.go on small tables.
use re_casa_os_user_service.Prelude.{
  Bytes, codes, ◌≡◌, refl, none, some, true, false, Bool, map, find_where, bytes_eq, count_where,
  update_where, exists_where, ◌≢◌, ◌-◌, ◌∷◌, arith, [],
}
use re_casa_os_user_service.Store.{◌>>=◌, ok, World}
use re_casa_os_user_service.Users.{
  settle_upgrade, find_by_username, authenticate_user, upgrade_hash, new_hash, swap_password,
  is_admin,
}
use re_casa_os_user_service.Samples.{
  with_member, secret, toy_kdf, toy_crypto, secret', world_of, two_users,
}
use re_casa_os_user_service.Model.{User, LoginAttempt, Db}
use re_casa_os_user_service.Handlers.Login.{
  LoginRequest, post_user_login, without_hash, login_body, login_with, unless_locked,
  after_authentication, issued_reply, login_rate_limited, login_key,
}
use re_casa_os_user_service.Handlers.Profile.Credentials.{credential, profile_keeps_credentials}
use re_casa_os_user_service.Handlers.Hidden.All.{RepliesHidden, replies_hide_hash}
use re_casa_os_user_service.Handlers.{Reply, VerifyInformation, success, of_session}
use re_casa_os_user_service.Handlers.Profile.{
  put_user_info, put_user_nick, put_user_desc, get_user_info, get_user_info_by_username,
}
use re_casa_os_user_service.Password.{
  verify, parse, parse_parts, split_by, parse_costs, parse_field, parse_uint, starts_with_zero,
  parse_digits, invalid_parameters, outside, derive_key, needs_rehash, hash, hash_with_reader,
}
use re_casa_os_user_service.Users.Login.{Admitted}
use re_casa_os_user_service.Handlers.Password.{put_user_password}
use re_casa_os_user_service.Handlers.Login.Decision.{login_ok}
use re_casa_os_user_service.Session.Lockout.{
  check_login_lockout, login_attempt_key, find_attempt, record_login_success, clear_attempt,
}
use re_casa_os_user_service.Session.Issue.{issue_login_session, issue_session_pair, LoginMoment}
use re_casa_os_user_service.Session.Access.{
  find_user, revoke_access_token, get_user_token_version, add_revoked, is_access_token_revoked,
}
use re_casa_os_user_service.Tokens.{
  new_token_id, mint_access_token, mint_session_token, mint_refresh_token,
  validate_session_access_token, validate_session_token, key_for, claims_rejected,
}
use re_casa_os_user_service.Session.Refresh.{
  create_refresh_session, add_session, logout_session, revoke_user_refresh_session, revoke_sessions,
}
use re_casa_os_user_service.Session.Prune.{prune_auth_state, prune_all}
use re_casa_os_user_service.Session.Events.{
  log_credential_event, list_credential_events, stamped, add_event,
}
use re_casa_os_user_service.Handlers.Sessions.{
  get_credential_events, post_user_logout, target, events_for, events_of_target, events_reply,
  logged_out,
}
use re_casa_os_user_service.Auth.Middleware.{AuthenticatedSession, authenticate, admit}
use re_casa_os_user_service.Handlers.Sessions.Access.{post_user_logout_ends, events_need_admin}
use re_casa_os_user_service.Handlers.Login.Locked.{login_locked, well_formed}
use re_casa_os_user_service.Users.Lookup.{get_user_info_by_id, first_user}
use re_casa_os_user_service.Auth.Header.{
  authorization_token, token_of, is_malformed, starts_with_space, is_space, ends_in_space,
  exists_byte, is_forbidden, strip_scheme, has_fold_prefix, to_lower, after_bearer, check_token,
  count_byte, all_bytes, is_token_byte,
}
use re_casa_os_user_service.Store.Returns.{Returns}
use re_casa_os_user_service.Handlers.Custom.Own.{Serves, Stored, post_user_custom_conf_ok}
use re_casa_os_user_service.Handlers.Custom.{received, post_user_custom_conf}
use re_casa_os_user_service.UserConfig.Tests.{place}

abbrev request : LoginRequest
request = record { allowed = true; trailing = false; decoded = some (codes "guest", secret) }

abbrev never : Bytes → Bytes → Bool
never a b = false

-- No other request commits.
abbrev nobody : LoginMoment → Db → Db
nobody m d = d

login_replies :
    (rep : Reply) × ((post_user_login toy_kdf nobody toy_crypto never request with_member).0
      ≡ ok rep)
    × (rep.status ≡ success)
unfolding ◌>>=◌ post_user_login login_body login_with check_login_lockout login_attempt_key
    unless_locked find_attempt find_where after_authentication authenticate_user find_by_username
    bytes_eq verify parse parse_parts split_by parse_costs parse_field parse_uint starts_with_zero
    parse_digits invalid_parameters outside derive_key needs_rehash upgrade_hash new_hash hash
    hash_with_reader settle_upgrade swap_password count_where record_login_success issued_reply
    issue_login_session find_user clear_attempt update_where issue_session_pair new_token_id
    mint_access_token mint_session_token mint_refresh_token create_refresh_session add_session
    exists_where prune_auth_state prune_all log_credential_event
login_replies = (_, refl, refl)

login_ok_example :
    (name : Bytes) × (password : Bytes) × (u : User) × (row : User) × (t : VerifyInformation)
    × (request.decoded ≡ some (name, password))
    × (find_by_username name with_member.db ≡ some row)
    × (verify toy_kdf row.password password ≡ ok tt)
    × Admitted toy_kdf (λ d. d) password row with_member.db u
    × (login_replies.0.body ≡ of_session t (without_hash u))
login_ok_example =
    login_ok toy_kdf nobody toy_crypto never request with_member login_replies.0 login_replies.1
      login_replies.2

replies_hide_hash_example :
    let w = with_member in
    RepliesHidden (post_user_login toy_kdf nobody toy_crypto never request) w
    × RepliesHidden (put_user_info 2 none) w
    × RepliesHidden (put_user_nick 2 (codes "g")) w
    × RepliesHidden (put_user_desc 2 (codes "g")) w
    × RepliesHidden (put_user_password toy_kdf (λ d. d) 2 secret secret') w
    × RepliesHidden (get_user_info 2) w
    × RepliesHidden (get_user_info_by_username (codes "root")) w
replies_hide_hash_example =
    replies_hide_hash toy_kdf nobody (λ d. d) toy_crypto never request none 2 (codes "g") secret
      secret' (codes "root") with_member

profile_keeps_credentials_example :
    (map credential (put_user_info 2 none with_member).1.db.users
      ≡ map credential with_member.db.users)
    × (map credential (put_user_nick 2 (codes "g") with_member).1.db.users
        ≡ map credential with_member.db.users)
    × (map credential (put_user_desc 2 (codes "g") with_member).1.db.users
        ≡ map credential with_member.db.users)
profile_keeps_credentials_example = profile_keeps_credentials 2 none (codes "g") with_member

abbrev spent_budget : LoginAttempt
spent_budget = record {
  key = codes "login:guest";
  failures = 5;
  window_started_at = 50;
  locked_until = some 130;
}

abbrev locked_out : World
locked_out = world_of (record two_users { attempts = spent_budget ∷ [] })

lock_found : find_attempt (login_key (codes "guest")) locked_out.db ≡ some spent_budget
unfolding find_attempt find_where bytes_eq login_attempt_key validate_session_access_token
lock_found = refl

login_locked_example :
    (rep : Reply) × ((post_user_login toy_kdf nobody toy_crypto never request locked_out).0
      ≡ ok rep)
    × (rep.status ≢ success)
    × ((post_user_login toy_kdf nobody toy_crypto never request locked_out).1.db ≡ locked_out.db)
    × (well_formed request (codes "guest") secret ≡ true → rep ≡ login_rate_limited (130 - 100))
login_locked_example =
    login_locked toy_kdf nobody toy_crypto never request (codes "guest") secret locked_out
      spent_budget 130 refl refl refl lock_found refl (omega arith)

abbrev root_session : AuthenticatedSession
root_session = record {
  user_id = 1;
  username = codes "root";
  token_id = codes "s1";
  expires = some 900;
  request = 9;
}

other_user : 2 ≢ root_session.user_id
other_user h = absurd (omega arith)

events_shown :
    (rep : Reply) × ((get_credential_events (some root_session) (target 2) with_member).0 ≡ ok rep)
    × (rep.status ≡ success)
unfolding ◌>>=◌ get_credential_events events_for events_of_target get_user_info_by_id first_user
    bytes_eq find_user find_where events_reply list_credential_events validate_session_access_token
events_shown = (_, refl, refl)

events_need_admin_example :
    (row : User) × (find_user 1 with_member.db ≡ some row) × (is_admin row ≡ true)
events_need_admin_example =
    events_need_admin root_session 2 with_member events_shown.0 other_user events_shown.1
      events_shown.2

logout_replies :
    (rep : Reply) × ((post_user_logout (some root_session) with_member).0 ≡ ok rep)
    × (rep.status ≡ success)
unfolding ◌>>=◌ post_user_logout logged_out logout_session revoke_user_refresh_session
    revoke_access_token log_credential_event validate_session_access_token
logout_replies = (_, refl, refl)

abbrev after_logout : World
after_logout = (post_user_logout (some root_session) with_member).1

other_admitted :
    (s : AuthenticatedSession) × ((authenticate toy_crypto
        (λ d. d)
        true
        9
        (some (codes "Bearer a.b.c" ∷ []))
        after_logout).0
      ≡ ok s)
unfolding ◌>>=◌ authenticate authorization_token token_of is_malformed starts_with_space is_space
    ends_in_space exists_byte is_forbidden strip_scheme has_fold_prefix to_lower after_bearer
    check_token count_byte all_bytes is_token_byte validate_session_access_token
    validate_session_token key_for claims_rejected bytes_eq admit get_user_token_version
    post_user_logout logged_out logout_session revoke_user_refresh_session revoke_access_token
    log_credential_event stamped find_user find_where add_event add_revoked exists_where
    revoke_sessions is_access_token_revoked count_where
other_admitted = (_, refl)

post_user_logout_ends_example : other_admitted.0.token_id ≢ codes "s1"
post_user_logout_ends_example =
    post_user_logout_ends root_session with_member after_logout logout_replies.0 toy_crypto (λ d. d)
      true 9 (some (codes "Bearer a.b.c" ∷ [])) other_admitted.0 logout_replies.1 logout_replies.2
      refl other_admitted.1

post_user_custom_conf_ok_example :
    Returns
      (Serves 2 (codes "system") (Stored 7 2 (codes "system") (received (codes "{}"))))
      (post_user_custom_conf 7 place (codes "system") 2 (received (codes "{}")))
post_user_custom_conf_ok_example =
    post_user_custom_conf_ok 7 place (codes "system") 2 (received (codes "{}"))
