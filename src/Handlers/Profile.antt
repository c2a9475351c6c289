-- ===== src/Handlers/Profile.antt =====
-- route/v1/user.go: the handlers of a user's profile. `i` is the user_id header, which the
-- middleware writes.
pub mod Credentials
use re_casa_os_user_service.Prelude.{
  ℕ, Bytes, Option, none, some, ◌∷◌, [], if◌then◌else◌, ltb, is_empty, ◌==◌, not, ◌&&◌,
}
use re_casa_os_user_service.Store.{◌>>=◌, ◌>>◌, M, pure}
use re_casa_os_user_service.Model.{User}
use re_casa_os_user_service.Users.Lookup.{
  zero_user, get_user_info_by_id, get_user_info_by_user_name,
}
use re_casa_os_user_service.Handlers.{
  Reply, reply, client_error, success, of_names, invalid_params, of_user, server_error, status_ok,
  user_exist, user_not_exist, nothing, service_error, user_not_exist_or_pwd_invalid,
}
use re_casa_os_user_service.Users.{update_user, get_all_user_name}

pub record UserProfileUpdate : Type 0 where
  pub username : Bytes
  pub email : Bytes
  pub nickname : Bytes
  pub avatar : Bytes
  pub description : Bytes

abbrev pub first_non_empty : Bytes → Bytes → Bytes
first_non_empty [] fallback = fallback
first_non_empty (b ∷ bs) fallback = b ∷ bs

unfoldable pub updated : UserProfileUpdate → User → User
updated requested user = record zero_user {
  id = user.id;
  username = first_non_empty requested.username user.username;
  role = user.role;
  email = first_non_empty requested.email user.email;
  nickname = first_non_empty requested.nickname user.nickname;
  avatar = first_non_empty requested.avatar user.avatar;
  description = first_non_empty requested.description user.description;
}

-- The user who has the requested name already, if one is requested.
unfoldable pub name_owner : Bytes → M User
name_owner [] = pure zero_user
name_owner (b ∷ bs) = get_user_info_by_user_name (b ∷ bs)

unfoldable pub save_profile : ℕ → User → User → M Reply
save_profile i user changed = do
  update_user changed
  public ← get_user_info_by_id i
  pure (
      if not (public.id == user.id)
      then server_error
      else reply success success (of_user (record public { password = [] })))

unfoldable pub put_profile : ℕ → UserProfileUpdate → User → M Reply
put_profile i requested user = do
  owner ← name_owner requested.username
  if ltb 0 owner.id && not (owner.id == user.id)
      then pure (reply client_error user_exist nothing)
      else save_profile i user (updated requested user)

-- `none` is a body that does not bind.
unfoldable pub put_user_info : ℕ → Option UserProfileUpdate → M Reply
put_user_info i none = pure (reply client_error invalid_params nothing)
put_user_info i (some requested) = do
  user ← get_user_info_by_id i
  if user.id == 0
      then pure (reply service_error user_not_exist_or_pwd_invalid nothing)
      else put_profile i requested user

-- PutUserNick and PutUserDesc: change one field, or leave it if the value is empty.
unfoldable pub put_field : (User → User) → ℕ → M Reply
put_field change i = do
  user ← get_user_info_by_id i
  if user.id == 0
      then pure (reply status_ok user_not_exist nothing)
      else (do update_user (change user); pure (reply status_ok success (of_user (change user))))

unfoldable pub put_user_nick : ℕ → Bytes → M Reply
put_user_nick i nickname =
    if is_empty nickname
    then pure (reply status_ok invalid_params nothing)
    else put_field (λ u. record u { nickname = nickname }) i

unfoldable pub put_user_desc : ℕ → Bytes → M Reply
put_user_desc i desc =
    if is_empty desc
    then pure (reply status_ok invalid_params nothing)
    else put_field (λ u. record u { description = desc }) i

unfoldable pub get_user_info : ℕ → M Reply
get_user_info i = do user ← get_user_info_by_id i; pure (reply success success (of_user user))

unfoldable pub get_user_info_by_username : Bytes → M Reply
get_user_info_by_username [] = pure (reply client_error invalid_params nothing)
get_user_info_by_username (b ∷ bs) = do
  user ← get_user_info_by_user_name (b ∷ bs)
  pure (
      if user.id == 0
      then reply service_error user_not_exist nothing
      else reply success success (of_user user))

unfoldable pub get_user_all_username : M Reply
get_user_all_username = do names ← get_all_user_name; pure (reply success success (of_names names))
