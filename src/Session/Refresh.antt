-- ===== src/Session/Refresh.antt =====
-- service/session.go: the refresh sessions, their rotation and their revocation.
pub mod Rotation
pub mod Reuse
pub mod SingleUse
pub mod Containment
pub mod Everywhere
use re_casa_os_user_service.Prelude.{
  ℕ, Bytes, codes, Bool, false, not, Option, none, some, ◌&&◌, ◌||◌, [], ◌∷◌, leb, ◌==◌, is_some,
  is_empty, bytes_eq, find_where, update_where, count_where, exists_where, if◌then◌else◌,
}
use re_casa_os_user_service.Model.{Db, RefreshSession}
use re_casa_os_user_service.Store.{
  M, Result, ok, err, invalid_argument, invalid_refresh_session, refresh_session_reused,
  session_reuse, pure, raise, lift, ◌>>=◌, ◌>>◌, refuse_if, unless_ready, or_err, attempt,
  statement, query, exec, insert, transaction, time_now, interleave,
}
use re_casa_os_user_service.Session.Access.{bump_token_version, revoke_access_token}

abbrev pub has_token : Bytes → RefreshSession → Bool
has_token t s = bytes_eq s.token_sha256 t

-- The primary key and the unique index on token_sha256.
abbrev pub clashes : RefreshSession → RefreshSession → Bool
clashes new s = bytes_eq s.id new.id || bytes_eq s.token_sha256 new.token_sha256

unfoldable pub add_session : RefreshSession → Db → Option Db
add_session new d =
    if exists_where (clashes new) d.sessions
    then none
    else some (record d { sessions = new ∷ d.sessions })

abbrev pub fresh_session : Bytes → ℕ → Bytes → ℕ → ℕ → RefreshSession
fresh_session session_id user_id token_sha256 issued_at expires_at = record {
  id = session_id;
  user_id = user_id;
  token_sha256 = token_sha256;
  issued_at = issued_at;
  expires_at = expires_at;
  used_at = none;
  replaced_by = [];
  revoked_at = none;
  revoke_reason = [];
}

unfoldable pub create_refresh_session : ℕ → Bytes → ℕ → ℕ → Bytes → M (Unit {0})
create_refresh_session user_id token_sha256 issued_at expires_at session_id = do
  unless_ready false invalid_argument
  refuse_if (user_id == 0 || is_empty token_sha256 || is_empty session_id) invalid_argument
  insert (add_session (fresh_session session_id user_id token_sha256 issued_at expires_at))

-- WHERE id = ? AND used_at IS NULL
abbrev pub unused : Bytes → RefreshSession → Bool
unused session_id s = bytes_eq s.id session_id && not (is_some s.used_at)

abbrev pub mark_used : ℕ → Bytes → RefreshSession → RefreshSession
mark_used at replacement_id s = record s { used_at = some at; replaced_by = replacement_id }

-- The compare-and-swap on the presented row, with the number of rows affected.
unfoldable pub consume : Bytes → ℕ → Bytes → Db → ℕ × Db
consume session_id at replacement_id d = (
  count_where (unused session_id) d.sessions,
  record d { sessions = update_where (unused session_id) (mark_used at replacement_id) d.sessions },
)

unfoldable pub find_session : Bytes → Db → Option RefreshSession
find_session presented d = find_where (has_token presented) d.sessions

-- The closure of the transaction. The user id that it notes on a replay travels with the error.
unfoldable pub rotate_body : Bytes → Bytes → Bytes → ℕ → ℕ → ℕ → M RefreshSession
rotate_body presented replacement_id replacement_sha256 issued_at expires_at now = do
  found ← query (find_session presented)
  current ← or_err found invalid_refresh_session
  refuse_if (is_some current.revoked_at || leb current.expires_at now) invalid_refresh_session
  refuse_if (is_some current.used_at) (session_reuse current.user_id)
  rows ← statement (consume current.id now replacement_id)
  refuse_if (not (rows == 1)) invalid_refresh_session
  insert (
      add_session
        (fresh_session replacement_id current.user_id replacement_sha256 issued_at expires_at))
  pure (mark_used now replacement_id current)

-- WHERE user_id = ? AND revoked_at IS NULL
abbrev pub unrevoked_of : ℕ → RefreshSession → Bool
unrevoked_of user_id s = s.user_id == user_id && not (is_some s.revoked_at)

abbrev pub mark_revoked : ℕ → Bytes → RefreshSession → RefreshSession
mark_revoked at reason s = record s { revoked_at = some at; revoke_reason = reason }

unfoldable pub revoke_sessions : (RefreshSession → Bool) → ℕ → Bytes → Db → Db
revoke_sessions p at reason d = record d {
  sessions = update_where p (mark_revoked at reason) d.sessions;
}

unfoldable pub revoke_user_sessions : ℕ → ℕ → Bytes → M (Unit {0})
revoke_user_sessions user_id at reason = exec (revoke_sessions (unrevoked_of user_id) at reason)

-- errors.Join of two errors, of which either may be nil; errors.Is finds the first.
abbrev pub join : {A : Type 0} → Result (Unit {0}) → Result A → Result (Unit {0})
join (err e) r = err e
join (ok _) (err e) = err e
join (ok _) (ok _) = ok tt

-- The points outside a transaction at which a rotation or a refresh lets other requests commit.
pub data Moment : Type 0 where
  before_lookup before_rotation before_revocation before_bump before_success before_prune : Moment

-- A replay revokes the family and advances the credential generation, outside the transaction.
-- `others` is what other requests commit at each point.
unfoldable pub contain_reuse : (Moment → Db → Db) → ℕ → ℕ → M RefreshSession
contain_reuse others user_id now = do
  interleave (others before_revocation)
  revoked ← attempt (revoke_user_sessions user_id now (codes "refresh token reuse detected"))
  interleave (others before_bump)
  bumped ← attempt (bump_token_version user_id)
  lift (join revoked bumped)
  raise refresh_session_reused

abbrev pub finish_rotation : (Moment → Db → Db) → ℕ → Result RefreshSession → M RefreshSession
finish_rotation others now (ok current) = pure current
finish_rotation others now (err (session_reuse user_id)) = contain_reuse others user_id now
finish_rotation others now (err e) = raise e

unfoldable pub rotate_refresh_session :
    (Moment → Db → Db) → Bytes → Bytes → Bytes → ℕ → ℕ → ℕ → M RefreshSession
rotate_refresh_session others presented replacement_id replacement_sha256 issued_at expires_at now =
    do
      unless_ready (is_empty presented || is_empty replacement_id || is_empty replacement_sha256)
          invalid_refresh_session
      outcome ← attempt (
          transaction
            (rotate_body presented replacement_id replacement_sha256 issued_at expires_at now))
      finish_rotation others now outcome

abbrev pub unrevoked_id : Bytes → RefreshSession → Bool
unrevoked_id session_id s = bytes_eq s.id session_id && not (is_some s.revoked_at)

unfoldable pub revoke_refresh_session : Bytes → Bytes → M (Unit {0})
revoke_refresh_session session_id reason = do
  unless_ready (is_empty session_id) invalid_argument
  at ← time_now
  exec (revoke_sessions (unrevoked_id session_id) at reason)

abbrev pub unrevoked_id_of : Bytes → ℕ → RefreshSession → Bool
unrevoked_id_of session_id user_id s =
    bytes_eq s.id session_id && s.user_id == user_id && not (is_some s.revoked_at)

unfoldable pub revoke_user_refresh_session : ℕ → Bytes → Bytes → M (Unit {0})
revoke_user_refresh_session user_id session_id reason = do
  unless_ready (user_id == 0 || is_empty session_id) invalid_argument
  at ← time_now
  exec (revoke_sessions (unrevoked_id_of session_id user_id) at reason)

unfoldable pub revoke_all_user_sessions : ℕ → Bytes → M (Unit {0})
revoke_all_user_sessions user_id reason = do
  unless_ready (user_id == 0) invalid_argument
  at ← time_now
  revoke_user_sessions user_id at reason

unfoldable pub logout_session : ℕ → Bytes → ℕ → M (Unit {0})
logout_session user_id session_id access_expires = do
  unless_ready (user_id == 0 || is_empty session_id) invalid_argument
  revoked ← attempt (revoke_user_refresh_session user_id session_id (codes "logout"))
  denied ← attempt (revoke_access_token session_id user_id access_expires)
  lift (join revoked denied)

unfoldable pub logout_all_sessions : ℕ → M (Unit {0})
logout_all_sessions user_id = do
  unless_ready (user_id == 0) invalid_argument
  _ ← bump_token_version user_id
  revoke_all_user_sessions user_id (codes "logout-all")
