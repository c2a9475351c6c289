-- ===== src/Session/Prune.antt =====
-- service/session.go: PruneAuthState.
use re_casa_os_user_service.Prelude.{
  ℕ, ◌+◌, ◌*◌, Bytes, Bool, true, Option, none, some, ◌&&◌, ◌||◌, List, ltb, leb, ◌==◌, bytes_lt,
  count_where, delete_where, false,
}
use re_casa_os_user_service.Model.{Db, RefreshSession, RevokedAccessToken, hour}
use re_casa_os_user_service.Store.{M, ◌>>◌, ignore, exec, silent_unless_ready}

abbrev pub login_attempt_retention : ℕ
login_attempt_retention = 24 * hour

abbrev pub credential_event_retention : ℕ
credential_event_retention = 180 * 24 * hour

abbrev pub refresh_session_cap : ℕ
refresh_session_cap = 256

abbrev pub revoked_access_cap : ℕ
revoked_access_cap = 1024

-- `t < now - d`, on times that may lie before the zero time.
abbrev pub before_by : ℕ → ℕ → ℕ → Bool
before_by now d t = ltb (t + d) now

unfoldable pub prune_revoked : ℕ → Db → Db
prune_revoked now d = record d { revoked = delete_where (λ r. ltb r.expires_at now) d.revoked }

unfoldable pub prune_sessions : ℕ → Db → Db
prune_sessions now d = record d { sessions = delete_where (λ s. ltb s.expires_at now) d.sessions }

abbrev pub lock_over : ℕ → Option ℕ → Bool
lock_over now none = true
lock_over now (some until) = ltb until now

unfoldable pub prune_attempts : ℕ → Db → Db
prune_attempts now d = record d {
  attempts =
      delete_where
        (λ a.
          before_by now login_attempt_retention a.window_started_at && lock_over now a.locked_until)
        d.attempts;
}

unfoldable pub prune_events : ℕ → Db → Db
prune_events now d = record d {
  events = delete_where (λ e. before_by now credential_event_retention e.occurred_at) d.events;
}

-- ORDER BY issued_at DESC, id DESC
unfoldable pub session_ranks_before : RefreshSession → RefreshSession → Bool
session_ranks_before a b =
    ltb b.issued_at a.issued_at || (a.issued_at == b.issued_at && bytes_lt b.id a.id)

-- Rows of the same user that the subquery lists before `s`.
unfoldable pub session_rank : List RefreshSession → RefreshSession → ℕ
session_rank all s = count_where (λ k. k.user_id == s.user_id && session_ranks_before k s) all

-- NOT IN (the first `refresh_session_cap` rows of the same user)
unfoldable pub cap_sessions : Db → Db
cap_sessions d = record d {
  sessions = delete_where (λ s. leb refresh_session_cap (session_rank d.sessions s)) d.sessions;
}

-- ORDER BY expires_at DESC leaves rows of one expiry in an order of SQLite's, `ties`.
unfoldable pub revoked_ranks_before :
    (Bytes → Bytes → Bool) → RevokedAccessToken → RevokedAccessToken → Bool
revoked_ranks_before ties a b =
    ltb b.expires_at a.expires_at || (a.expires_at == b.expires_at && ties a.jti b.jti)

unfoldable pub revoked_rank :
    (Bytes → Bytes → Bool) → List RevokedAccessToken → RevokedAccessToken → ℕ
revoked_rank ties all r =
    count_where (λ k. k.user_id == r.user_id && revoked_ranks_before ties k r) all

unfoldable pub cap_revoked : (Bytes → Bytes → Bool) → Db → Db
cap_revoked ties d = record d {
  revoked = delete_where (λ r. leb revoked_access_cap (revoked_rank ties d.revoked r)) d.revoked;
}

-- The six statements, of which each may fail alone.
unfoldable pub prune_all : (Bytes → Bytes → Bool) → ℕ → M (Unit {0})
prune_all ties now = do
  ignore (exec (prune_revoked now))
  ignore (exec (prune_sessions now))
  ignore (exec (prune_attempts now))
  ignore (exec (prune_events now))
  ignore (exec cap_sessions)
  ignore (exec (cap_revoked ties))

unfoldable pub prune_auth_state : (Bytes → Bytes → Bool) → ℕ → M (Unit {0})
prune_auth_state ties now = silent_unless_ready false tt (prune_all ties now)
