-- ===== src/Session/Tests.antt =====
-- Runs of service/session.go on small tables.
use re_casa_os_user_service.Prelude.{
  ℕ, codes, ◌≡◌, refl, none, some, [], ◌∷◌, count_where, true, ◌≢◌, Option, ◌<◌, find_where,
  bytes_eq, arith, false, if◌then◌else◌, ltb, exists_where, update_where, Bool,
}
use re_casa_os_user_service.Session.Lockout.{
  add_failure, restart_window, login_failure_limit, login_lockout_length, find_attempt,
  record_login_failure, count_failure, check_login_lockout, save_attempt, lock_state, is_locked,
}
use re_casa_os_user_service.Session.Refresh.{
  find_session, rotate_refresh_session, rotate_body, mark_used, consume, add_session, contain_reuse,
  unrevoked_of, logout_all_sessions, revoke_all_user_sessions, revoke_user_sessions,
  revoke_sessions, Moment, before_bump,
}
use re_casa_os_user_service.Store.{
  World, ◌>>=◌, err, refresh_session_reused, ok, invalid_refresh_session, refuse_if,
}
use re_casa_os_user_service.Session.Access.{
  find_user, bump_token_version, advance_version, advanced,
}
use re_casa_os_user_service.Model.{RefreshSession, LoginAttempt, Db}
use re_casa_os_user_service.Samples.{world_of, two_users, admin, live, empty_db}
use re_casa_os_user_service.Session.Lockout.Budget.{locks_at_limit, locked_at}
use re_casa_os_user_service.Session.Runs.{run, passes, creates}
use re_casa_os_user_service.Session.Refresh.Rotation.{rotate_atomic, rotated, rotate_ok}
use re_casa_os_user_service.Session.Refresh.Reuse.{IsUnique}
use re_casa_os_user_service.Session.Refresh.Containment.{contained, reuse_contained, revoked}
use re_casa_os_user_service.Session.Refresh.SingleUse.{single_use}
use re_casa_os_user_service.Session.Refresh.Everywhere.{logout_all_ok}

abbrev attempt_of : ℕ → Option ℕ → LoginAttempt
attempt_of n until = record {
  key = codes "login:root";
  failures = n;
  window_started_at = 50;
  locked_until = until;
}

abbrev start : World
start = world_of two_users

-- No other request commits.
abbrev alone : Moment → Db → Db
alone m d = d

abbrev counting : World
counting = world_of (record two_users { attempts = attempt_of 4 none ∷ [] })

abbrev locked : World
locked = world_of (record two_users { attempts = attempt_of 5 (some 130) ∷ [] })

abbrev spent : World
spent = world_of (record two_users { sessions = mark_used 60 (codes "s0") live ∷ [] })

abbrev consumed : RefreshSession
consumed = mark_used 100 (codes "s2") live

rotation_succeeds :
    (rotate_refresh_session alone (codes "t1") (codes "s2") (codes "t2") 100 1000 100 start).0
    ≡ ok consumed
unfolding ◌>>=◌ rotate_refresh_session rotate_body consume add_session find_session find_where
    bytes_eq count_where update_where exists_where refuse_if contain_reuse
rotation_succeeds = refl

unknown_fails :
    (rotate_refresh_session alone (codes "t9") (codes "s2") (codes "t2") 100 1000 100 start).0
    ≡ err invalid_refresh_session
unfolding ◌>>=◌ rotate_refresh_session rotate_body find_session find_where bytes_eq refuse_if
    contain_reuse
unknown_fails = refl

unknown :
    (row : RefreshSession) → find_session (codes "t9") start.db ≡ some row → row.used_at ≡ none
unfolding find_session find_where bytes_eq
unknown row h = ground arith

rotate_ok_example :
    (row : RefreshSession) × (find_session (codes "t1") start.db ≡ some row)
    × (row.used_at ≡ none)
    × (row.revoked_at ≡ none)
    × (100 < row.expires_at)
    × (consumed ≡ mark_used 100 (codes "s2") row)
    × ((rotate_refresh_session alone (codes "t1") (codes "s2") (codes "t2") 100 1000 100 start).1.db
        ≡ rotated row (codes "s2") (codes "t2") 100 1000 100 start.db)
rotate_ok_example =
    rotate_ok alone (codes "t1") (codes "s2") (codes "t2") 100 1000 100 start consumed
      rotation_succeeds

rotate_atomic_example :
    (rotate_refresh_session alone (codes "t9") (codes "s2") (codes "t2") 100 1000 100 start).1.db
    ≡ start.db
rotate_atomic_example =
    rotate_atomic alone (codes "t9") (codes "s2") (codes "t2") 100 1000 100 start
      invalid_refresh_session unknown unknown_fails

unique : IsUnique (codes "t1") start.db
unfolding count_where bytes_eq
unique = omega arith

apart : codes "t3" ≢ codes "t1"
apart h = absurd (ground (arith, h))

single_use_example :
    (rotate_refresh_session alone (codes "t1") (codes "s4") (codes "t4") 300 1200 300 (
      run
        (passes 100 ∷ creates 1 (codes "t3") 200 1100 (codes "s3") ∷ [])
        (rotate_refresh_session alone
          (codes "t1")
          (codes "s2")
          (codes "t2")
          100
          1000
          100
          start).1)).0
    ≢ ok live
single_use_example =
    single_use alone alone (codes "t1") (codes "s2") (codes "t2") (codes "s4") (codes "t4") 100 1000
      100 300 1200 300 start consumed live
      (passes 100 ∷ creates 1 (codes "t3") 200 1100 (codes "s3") ∷ []) unique rotation_succeeds
      (tt, (apart, tt))

found_spent : find_session (codes "t1") spent.db ≡ some (mark_used 60 (codes "s0") live)
unfolding find_session find_where bytes_eq
found_spent = refl

admin_revoked : find_user 1 (alone before_bump (revoked alone 1 100 spent.db)) ≡ some admin
unfolding revoke_sessions find_user find_where
admin_revoked = refl

reuse_contained_example :
    let r =
      rotate_refresh_session alone (codes "t1") (codes "s2") (codes "t2") 100 1000 100 spent in
    (r.0 ≡ err refresh_session_reused)
    × (r.1.db ≡ contained alone 1 100 100 spent.db)
    × (exists_where (unrevoked_of 1) (revoked alone 1 100 spent.db).sessions ≡ false)
    × (find_user 1 r.1.db ≡ some (advanced 100 admin))
reuse_contained_example =
    reuse_contained spent (λ n. refl) refl alone (codes "t1") (codes "s2") (codes "t2") 100 1000 100
      60 (mark_used 60 (codes "s0") live) admin refl refl refl found_spent refl (omega arith) refl
      (omega arith) admin_revoked

abbrev wait : Bool × ℕ
wait = (true, 30)

abbrev four_failures : World
four_failures = world_of (record empty_db { attempts = attempt_of 4 none ∷ [] })

failures_found : find_attempt (codes "login:root") four_failures.db ≡ some (attempt_of 4 none)
unfolding find_attempt find_where bytes_eq
failures_found = refl

abbrev after_fifth : World
after_fifth = (record_login_failure (codes "login:root") 100 four_failures).1

fifth_ready : after_fifth.ready ≡ true
unfolding ◌>>=◌ record_login_failure count_failure refuse_if find_attempt find_where bytes_eq
    update_where save_attempt exists_where lock_state add_failure restart_window
fifth_ready = refl

fifth_passes : after_fifth.fails after_fifth.calls ≡ false
unfolding ◌>>=◌ record_login_failure count_failure refuse_if find_attempt find_where bytes_eq
    lock_state
fifth_passes = refl

unlocked_yet : is_locked (lock_state 100 (attempt_of 4 none)) ≡ false
unfolding lock_state
unlocked_yet = refl

locks_at_limit_example :
    ((record_login_failure (codes "login:root") 100 four_failures).0
      ≡ ok (if ltb 5 login_failure_limit then (false, 0) else (true, login_lockout_length)))
    × ((check_login_lockout (codes "login:root") 160 after_fifth).0 ≡ ok (locked_at 4 100 160))
locks_at_limit_example =
    locks_at_limit (codes "login:root") 100 160 four_failures after_fifth (attempt_of 4 none)
      (λ n. refl) refl refl failures_found (omega arith) (omega arith) unlocked_yet (omega arith)
      refl fifth_ready fifth_passes

admin_there : find_user 1 start.db ≡ some admin
unfolding find_user find_where
admin_there = refl

everywhere_succeeds : (logout_all_sessions 1 start).0 ≡ ok tt
unfolding ◌>>=◌ logout_all_sessions bump_token_version advance_version revoke_all_user_sessions
    revoke_user_sessions revoke_sessions find_user find_where update_where refuse_if
everywhere_succeeds = refl

logout_all_ok_example :
    (find_user 1 (logout_all_sessions 1 start).1.db ≡ some (advanced 100 admin))
    × (exists_where (unrevoked_of 1) (logout_all_sessions 1 start).1.db.sessions ≡ false)
logout_all_ok_example = logout_all_ok 1 start admin admin_there everywhere_succeeds
