-- ===== src/Users/Tests.antt =====
-- Runs of service/user.go and pkg/password/password.go on small tables and a toy key derivation.
use re_casa_os_user_service.Prelude.{
  Bytes, codes, ◌≡◌, refl, some, ◌≤◌, count_where, find_where, bytes_eq, arith, update_where,
  delete_where, itoa, itoa_digits, map, true,
}
use re_casa_os_user_service.Users.{
  find_by_username, authenticate_user, change_user_password, validate_new_password, is_admin,
  delete_user_by_id, has_line_byte, refuse_change, delete_body, holds, revoke_deleted,
  commit_password, unless_last, with_new_password, upgrade_hash, remove_user, new_hash,
  swap_password, settle_upgrade,
}
use re_casa_os_user_service.Model.{User}
use re_casa_os_user_service.Store.{◌>>=◌, refuse_if, ok}
use re_casa_os_user_service.Password.{
  invalid_parameters, parse, verify, parse_parts, split_by, derive_key, parse_costs, needs_rehash,
  parse_field, parse_uint, parse_digits, hash, starts_with_zero, hash_with_reader, outside,
  phc_string,
}
use re_casa_os_user_service.Session.Access.{find_user, has_id}
use re_casa_os_user_service.Samples.{toy_seal, toy_laws, with_member, toy_kdf, secret, secret'}
use re_casa_os_user_service.Bootstrap.State.{with_immediate_transaction}
use re_casa_os_user_service.Users.Deletion.{delete_keeps_admin}
use re_casa_os_user_service.Session.Events.{log_credential_event, stamped, add_event}
use re_casa_os_user_service.Users.Change.{change_ok}
use re_casa_os_user_service.Session.Refresh.{
  revoke_user_sessions, revoke_sessions, revoke_all_user_sessions,
}
use re_casa_os_user_service.Users.Reset.{Schema, reset_admin_password, reset_user_password}
use re_casa_os_user_service.Users.Reset.Accounts.{account, reset_keeps_accounts}

login_succeeds :
    (u : User) × ((authenticate_user toy_kdf (λ d. d) (codes "guest") secret with_member).0 ≡ ok u)
unfolding authenticate_user ◌>>=◌ refuse_if find_by_username find_where bytes_eq verify derive_key
    needs_rehash upgrade_hash new_hash hash hash_with_reader phc_string settle_upgrade swap_password
    update_where count_where itoa itoa_digits parse parse_parts split_by parse_costs parse_field
    parse_uint parse_digits starts_with_zero invalid_parameters outside
login_succeeds = (_, refl)

change_succeeds : (change_user_password toy_kdf (λ d. d) 2 secret secret' with_member).0 ≡ ok tt
unfolding change_user_password validate_new_password has_line_byte refuse_change commit_password
    log_credential_event stamped revoke_user_sessions revoke_sessions add_event find_user ◌>>=◌
    refuse_if find_where bytes_eq verify derive_key new_hash hash hash_with_reader phc_string
    swap_password update_where count_where itoa itoa_digits parse parse_parts split_by parse_costs
    parse_field parse_uint parse_digits starts_with_zero invalid_parameters outside
change_succeeds = refl

change_ok_example :
    (user : User) × (verifier : Bytes) × (find_user 2 with_member.db ≡ some user)
    × (verify toy_kdf user.password secret ≡ ok tt)
    × (validate_new_password secret' ≡ ok tt)
    × (hash toy_kdf secret' (toy_kdf.salts with_member.draws) ≡ ok verifier)
    × (count_where (holds user.id user.password) with_member.db.users ≡ 1)
    × ((change_user_password toy_kdf (λ d. d) 2 secret secret' with_member).1.db.users
        ≡ update_where
            (holds user.id user.password)
            (with_new_password verifier 100)
            with_member.db.users)
change_ok_example = change_ok toy_kdf (λ d. d) 2 secret secret' with_member change_succeeds

ids_unique : count_where (has_id 2) with_member.db.users ≤ 1
unfolding count_where
ids_unique = omega arith

has_admin : 1 ≤ count_where is_admin with_member.db.users
unfolding count_where bytes_eq
has_admin = omega arith

delete_keeps_admin_example :
    1 ≤ count_where is_admin (delete_user_by_id 2 (some 2) with_member).1.db.users
delete_keeps_admin_example = delete_keeps_admin 2 (some 2) with_member ids_unique has_admin

delete_succeeds : (delete_user_by_id 2 (some 2) with_member).0 ≡ ok tt
unfolding ◌>>=◌ delete_user_by_id with_immediate_transaction delete_body revoke_deleted unless_last
    remove_user find_user find_where count_where delete_where bytes_eq refuse_if
    revoke_all_user_sessions revoke_user_sessions revoke_sessions
delete_succeeds = refl

abbrev current : Schema
current = record { has_state_table = true; has_token_version = true; has_sessions = true }

reset_keeps_accounts_example :
    (map account
        (reset_admin_password toy_kdf toy_kdf.salts
          (some toy_seal)
          current
          (codes "root")
          secret
          with_member).1.db.users
      ≡ map account with_member.db.users)
    × (map account
          (reset_user_password toy_kdf toy_kdf.salts
            (some toy_seal)
            current
            (codes "root")
            secret
            with_member).1.db.users
        ≡ map account with_member.db.users)
reset_keeps_accounts_example =
    reset_keeps_accounts toy_kdf toy_kdf.salts toy_seal current (codes "root") secret with_member
      toy_laws
