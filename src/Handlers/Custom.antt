-- ===== src/Handlers/Custom.antt =====
-- route/v1/user.go: the handlers of a user's custom configuration.
-- Each returns what it then does with the files; the message bus is not part of this repository, so
-- an event is what the handler gives it.
pub mod Own
use re_casa_os_user_service.Prelude.{
  ℕ, Bytes, Bool, true, Option, none, some, [], if◌then◌else◌, not, bytes_eq, codes, ◌==◌,
}
use re_casa_os_user_service.Store.{M, ◌>>=◌, pure}
use re_casa_os_user_service.Files.Disk.{Disk}
use re_casa_os_user_service.Files.{Answer, done, failed, missing, is_failed}
use re_casa_os_user_service.Users.Lookup.{get_user_info_by_id}
use re_casa_os_user_service.Handlers.{
  reply, Reply, Body, success, service_error, of_json, status_request_entity_too_large,
  client_error, nothing, of_text, invalid_params, text, user_not_exist,
}
use re_casa_os_user_service.UserConfig.Place.{Place}
use re_casa_os_user_service.UserConfig.Store.{delete, read, write}
use re_casa_os_user_service.UserConfig.Key.{custom_config_key_pattern, validate_key}

pub record Served : Type 0 where
  pub reply : Reply
  pub disk : Disk
  pub published : Option Bytes

abbrev pub served : Reply → Disk → Served
served r d = record { reply = r; disk = d; published = none }

-- setCustomConfigResponseHeaders
abbrev pub guarded : Reply → Reply
guarded r = record r { no_store = true; nosniff = true }

abbrev pub invalid_custom_config : Reply
invalid_custom_config = guarded (reply client_error invalid_params nothing)

abbrev pub service_failure : Reply
service_failure = guarded (reply service_error service_error nothing)

-- The checks that the three handlers begin with; `act` is the rest of one, for the user's id.
unfoldable pub with_custom_key : Bytes → ℕ → (ℕ → Disk → Served) → M (Disk → Served)
with_custom_key name user_id act =
    if not (custom_config_key_pattern name)
    then pure (served invalid_custom_config)
    else if is_failed (validate_key name)
    then pure (served invalid_custom_config)
    else (do
      user ← get_user_info_by_id user_id
      pure (
          if user.id == 0
          then served (guarded (reply service_error user_not_exist nothing))
          else act user.id))

abbrev pub json_or_text : (Bytes → Bool) → Bytes → Body
json_or_text valid_json s = if valid_json s then of_json s else of_text s

unfoldable pub config_reply : (Bytes → Bool) → Answer Bytes → Reply
config_reply valid_json (done s) = guarded (reply success success (json_or_text valid_json s))
config_reply valid_json (failed missing) =
    guarded (reply success success (json_or_text valid_json []))
config_reply valid_json (failed e) = service_failure

unfoldable pub get_user_custom_conf :
    ℕ → (Bytes → Bool) → (Disk → Disk) → Place → Bytes → ℕ → M (Disk → Served)
get_user_custom_conf euid valid_json others p name user_id =
    with_custom_key name user_id
      (λ i d. let (r, d') = read euid others p i name d in served (config_reply valid_json r) d')

-- What reading the body of the request through MaxBytesReader gives.
pub data Upload : Type 0 where
  received : Bytes → Upload
  too_large broken : Upload

-- The reply is what goes to the framework's JSON encoder, which fails on contents that are not JSON.
unfoldable pub written_reply : Bytes → Bytes → Answer (Unit {0}) → Disk → Served
written_reply name contents (failed e) d = served service_failure d
written_reply name contents (done u) d = record {
  reply = guarded (reply success success (of_json contents));
  disk = d;
  published = if bytes_eq name (codes "system") then some contents else none;
}

unfoldable pub store_upload : ℕ → Place → Bytes → Upload → ℕ → Disk → Served
store_upload euid p name too_large i d =
    served
      (guarded
        (record (reply status_request_entity_too_large status_request_entity_too_large nothing) {
          message = text (codes "custom configuration is too large");
        }))
      d
store_upload euid p name broken i d = served invalid_custom_config d
store_upload euid p name (received s) i d =
    let (r, d') = write euid p i name s d in written_reply name s r d'

unfoldable pub post_user_custom_conf : ℕ → Place → Bytes → ℕ → Upload → M (Disk → Served)
post_user_custom_conf euid p name user_id body =
    with_custom_key name user_id (store_upload euid p name body)

unfoldable pub deleted_reply : Answer (Unit {0}) → Reply
deleted_reply (done u) = guarded (reply success success nothing)
deleted_reply (failed e) = service_failure

unfoldable pub delete_user_custom_conf : ℕ → Place → Bytes → ℕ → M (Disk → Served)
delete_user_custom_conf euid p name user_id =
    with_custom_key name user_id
      (λ i d. let (r, d') = delete euid p i name d in served (deleted_reply r) d')
