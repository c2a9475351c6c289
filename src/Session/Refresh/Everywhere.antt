-- ===== src/Session/Refresh/Everywhere.antt =====
-- Logging out everywhere in service/session.go.
use re_casa_os_user_service.Prelude.{ℕ, some, ◌≡◌, arith, exists_where, false, codes}
use re_casa_os_user_service.Store.{◌>>=◌, refuse_if, World, ok}
use re_casa_os_user_service.Session.Refresh.{
  logout_all_sessions, revoke_all_user_sessions, revoke_user_sessions, revoke_sessions,
  unrevoked_of,
}
use re_casa_os_user_service.Session.Access.{
  bump_token_version, advance_version, advanced, find_user,
}
use re_casa_os_user_service.Model.{User}
use re_casa_os_user_service.Session.Refresh.Containment.{find_user-advance, revoked_none_left}

-- A logout of all sessions that succeeds advances the credential generation of the user by one (and the
-- time of the last update to the present) and
-- leaves none of the user's refresh sessions unrevoked.
pub logout_all_ok :
    (i : ℕ) (w : World) (u : User)
    → find_user i w.db ≡ some u
    → (logout_all_sessions i w).0 ≡ ok tt
    → (find_user i (logout_all_sessions i w).1.db ≡ some (advanced w.clock u))
      × (exists_where (unrevoked_of i) (logout_all_sessions i w).1.db.sessions ≡ false)
unfolding ◌>>=◌ logout_all_sessions bump_token_version advance_version revoke_all_user_sessions
    revoke_user_sessions revoke_sessions find_user refuse_if
logout_all_ok i w u f h =
    let bumped = find_user-advance i w.clock w.db.users u f in
    (
      ground (arith, f, h, bumped),
      ground (arith, f, h, bumped, revoked_none_left i w.clock (codes "logout-all") w.db.sessions),
    )
