-- ===== src/Handlers/Accounts.antt =====
-- route/v1/user.go: deleting accounts, the setup status, and the endpoints that are gone.
use re_casa_os_user_service.Prelude.{ℕ, Bytes, Bool, true, Option, codes}
use re_casa_os_user_service.Store.{
  ◌>>=◌, ◌>>◌, Error, Result, M, attempt, err, ignore, ok, pure, last_admin, user_not_found,
}
use re_casa_os_user_service.Model.{State, initialized}
use re_casa_os_user_service.Handlers.{
  Reply, reply, status_conflict, nothing, success, text, of_id, status_not_found, get_msg,
  user_not_exist, server_error, no_store, status_service_unavailable, status_gone, service_error,
  of_initialized,
}
use re_casa_os_user_service.Bootstrap.State.{status_eq}
use re_casa_os_user_service.Users.{delete_user_by_id, delete_all_user}
use re_casa_os_user_service.Users.Lookup.{get_initialization_state}

abbrev pub deletion_error : Error → Reply
deletion_error last_admin = record (reply status_conflict status_conflict nothing) {
  message = text (codes "at least one administrator must remain");
}
deletion_error user_not_found = record (reply status_not_found status_not_found nothing) {
  message = get_msg user_not_exist;
}
deletion_error _ = server_error

abbrev pub deletion_reply : Bytes → Result (Unit {0}) → Reply
deletion_reply id (err e) = deletion_error e
deletion_reply id (ok u) = reply success success (of_id id)

-- `row_id` and `number` are what the database and strconv.Atoi read in the text `id`.
unfoldable pub delete_user : Bytes → ℕ → Option ℕ → M Reply
delete_user id row_id number = do
  outcome ← attempt (delete_user_by_id row_id number)
  pure (deletion_reply id outcome)

unfoldable pub delete_user_all : M Reply
delete_user_all = do
  ignore delete_all_user
  pure (record (reply status_conflict status_conflict nothing) {
    message = text (codes "bulk user deletion is disabled");
  })

abbrev pub is_initialized : State → Bool
is_initialized s = status_eq s.status initialized

abbrev pub status_reply : Result State → Reply
status_reply (err e) = no_store (reply status_service_unavailable service_error nothing)
status_reply (ok s) = no_store (reply success success (of_initialized (is_initialized s)))

unfoldable pub get_user_status : Bool → M Reply
get_user_status cancelled = do
  state ← attempt (get_initialization_state cancelled)
  pure (status_reply state)

abbrev pub gone : Bytes → Reply
gone message = record (no_store (reply status_gone status_gone nothing)) { message = text message }

abbrev pub post_user_register : Reply
post_user_register =
    gone (codes "network registration is disabled; initialize the administrator locally")

-- PutUserAvatar, GetUserAvatar and the four image endpoints.
abbrev pub legacy_image_endpoint_gone : Reply
legacy_image_endpoint_gone =
    record (gone (codes "legacy path-based image endpoints are disabled")) { nosniff = true }
