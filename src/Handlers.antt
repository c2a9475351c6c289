-- ===== src/Handlers.antt =====
-- route/v1/user.go: the replies of the HTTP handlers.
-- The web framework, the JSON decoder and the rate limiters are not part of this repository: what
-- they make of a request is an argument of the handler. A status or a code of the message table
-- stands as the name of its constant.
pub mod Login
pub mod Profile
pub mod Password
pub mod Sessions
pub mod Accounts
pub mod Hidden
pub mod Custom
pub mod Tests
use re_casa_os_user_service.Prelude.{ℕ, Bytes, Bool, true, false, Option, none, some, List, []}
use re_casa_os_user_service.Model.{User, CredentialEvent}

pub data Code : Type 0 where
  success client_error service_error invalid_params : Code
  too_many_request too_many_login_requests verification_failure : Code
  user_not_exist user_not_exist_or_pwd_invalid user_exist pwd_invalid_old pwd_is_too_simple : Code
  status_ok status_gone status_conflict status_not_found status_forbidden status_unauthorized : Code
  status_internal_server_error status_request_entity_too_large status_service_unavailable : Code

-- common_err.GetMsg of a code, or a text of the handler's own.
pub data Message : Type 0 where
  get_msg : Code → Message
  text : Bytes → Message

-- system_model.VerifyInformation
pub record VerifyInformation : Type 0 where
  pub refresh_token : Bytes
  pub access_token : Bytes
  pub expires_at : ℕ

-- The field Data of a reply.
pub data Body : Type 0 where
  nothing : Body
  of_user : User → Body
  of_session : VerifyInformation → User → Body
  of_tokens : VerifyInformation → Body
  of_names : List Bytes → Body
  of_events : List CredentialEvent → Body
  of_id : Bytes → Body
  of_initialized : Bool → Body
  of_text of_json : Bytes → Body

-- A JSON reply: the status, model.Result, and the headers that the handlers set.
pub record Reply : Type 0 where
  pub status : Code
  pub code : Code
  pub message : Message
  pub body : Body
  pub no_store : Bool
  pub nosniff : Bool
  pub retry_after : Option ℕ

abbrev pub reply : Code → Code → Body → Reply
reply status code body = record {
  status = status;
  code = code;
  message = get_msg code;
  body = body;
  no_store = false;
  nosniff = false;
  retry_after = none;
}

-- Cache-Control: no-store and Pragma: no-cache.
abbrev pub no_store : Reply → Reply
no_store r = record r { no_store = true }

abbrev pub server_error : Reply
server_error = reply status_internal_server_error service_error nothing

-- One body may carry a user; the hash in it, or nothing.
unfoldable pub password_in : Body → Bytes
password_in (of_user u) = u.password
password_in (of_session t u) = u.password
password_in _ = []
