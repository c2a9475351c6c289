-- ===== src/Session/Access.antt =====
-- service/session.go: credential generations and the denylist of access tokens.
use re_casa_os_user_service.Prelude.{
  ℕ, ◌+◌, Bytes, Bool, true, false, Option, some, ◌||◌, [], ◌∷◌, ltb, ◌==◌, is_empty, bytes_eq,
  find_where, update_where, count_where, exists_where, if◌then◌else◌,
}
use re_casa_os_user_service.Model.{Db, User, RevokedAccessToken}
use re_casa_os_user_service.Store.{
  M, Result, ok, invalid_argument, store_failure, pure, ◌>>=◌, ◌>>◌, unless_ready, or_err, attempt,
  query, exec, transaction, silent_unless_ready, time_now,
}

abbrev pub has_id : ℕ → User → Bool
has_id i u = u.id == i

-- The ORM refreshes updated_at in every update.
abbrev pub advanced : ℕ → User → User
advanced at u = record u { token_version = u.token_version + 1; updated_at = at }

unfoldable pub advance_version : ℕ → ℕ → Db → Db
advance_version i at d = record d { users = update_where (has_id i) (advanced at) d.users }

unfoldable pub find_user : ℕ → Db → Option User
find_user i d = find_where (has_id i) d.users

unfoldable pub bump_token_version : ℕ → M ℕ
bump_token_version user_id = do
  unless_ready (user_id == 0) invalid_argument
  transaction (do
    at ← time_now
    exec (advance_version user_id at)
    found ← query (find_user user_id)
    user ← or_err found store_failure
    pure user.token_version)

abbrev version_of : Result (Option User) → Bytes × ℕ × Bool
version_of (ok (some u)) = (u.username, u.token_version, true)
version_of _ = ([], 0, false)

unfoldable pub get_user_token_version : ℕ → M (Bytes × ℕ × Bool)
get_user_token_version user_id =
    silent_unless_ready (user_id == 0) ([], 0, false)
      (do found ← attempt (query (find_user user_id)); pure (version_of found))

abbrev pub has_jti : Bytes → RevokedAccessToken → Bool
has_jti t r = bytes_eq r.jti t

-- ON CONFLICT (jti) DO NOTHING.
unfoldable pub add_revoked : RevokedAccessToken → Db → Db
add_revoked r d =
    if exists_where (has_jti r.jti) d.revoked then d else record d { revoked = r ∷ d.revoked }

unfoldable pub revoke_access_token : Bytes → ℕ → ℕ → M (Unit {0})
revoke_access_token token_id user_id expires_at = do
  unless_ready (is_empty token_id || user_id == 0) invalid_argument
  exec (add_revoked (record { jti = token_id; user_id = user_id; expires_at = expires_at }))

unfoldable pub is_access_token_revoked : Bytes → M Bool
is_access_token_revoked token_id = do
  unless_ready (is_empty token_id) invalid_argument
  count ← query (λ d. count_where (has_jti token_id) d.revoked)
  pure (ltb 0 count)
