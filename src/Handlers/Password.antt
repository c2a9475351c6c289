-- ===== src/Handlers/Password.antt =====
-- route/v1/user.go: PutUserPassword. A body that does not bind is an empty map.
use re_casa_os_user_service.Prelude.{ℕ, Bytes, if◌then◌else◌, is_empty, ◌||◌, []}
use re_casa_os_user_service.Store.{
  ◌>>=◌, Error, Result, M, err, pure, ok, attempt, invalid_credentials, weak_password,
}
use re_casa_os_user_service.Password.{Kdf}
use re_casa_os_user_service.Model.{Db}
use re_casa_os_user_service.Handlers.{
  Reply, reply, client_error, pwd_invalid_old, invalid_params, nothing, success, pwd_is_too_simple,
  of_user, server_error,
}
use re_casa_os_user_service.Users.Lookup.{get_user_info_by_id}
use re_casa_os_user_service.Users.{change_user_password}

abbrev pub change_error : Error → Reply
change_error invalid_credentials = reply client_error pwd_invalid_old nothing
change_error weak_password = reply client_error pwd_is_too_simple nothing
change_error _ = server_error

unfoldable pub change_reply : ℕ → Result (Unit {0}) → M Reply
change_reply i (err e) = pure (change_error e)
change_reply i (ok u) = do
  user ← get_user_info_by_id i
  pure (reply success success (of_user (record user { password = [] })))

unfoldable pub put_user_password : Kdf → (Db → Db) → ℕ → Bytes → Bytes → M Reply
put_user_password k others i old new =
    if is_empty old || is_empty new
    then pure (reply client_error invalid_params nothing)
    else (do outcome ← attempt (change_user_password k others i old new); change_reply i outcome)
