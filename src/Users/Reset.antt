-- ===== src/Users/Reset.antt =====
-- service/user.go: the local commands, which run while the service is stopped.
pub mod Accounts
pub mod Bootstrapped
use re_casa_os_user_service.Store.{
  ◌>>=◌, ◌>>◌, or_error, attempt, query, refuse_if, invalid_username, lift, time_now, statement,
  password_changed,
}
use re_casa_os_user_service.Prelude.{
  ℕ, Bytes, Bool, Option, none, some, [], ◌∷◌, List, false, not, ◌||◌, leb, true, ◌&&◌, ◌-◌,
  bytes_eq, codes, ◌==◌, count_where, if◌then◌else◌, delete_where, length, update_where, is_some,
  ◌%◌, take, select_where, ◌+◌,
}
use re_casa_os_user_service.Bootstrap.State.{
  Seal, status_eq, seal_differs, reconcile_state, read_state, with_immediate_transaction,
}
use re_casa_os_user_service.Model.{
  State, Db, User, EventType, second, initialized, password_reset, bootstrap_created,
}
use re_casa_os_user_service.Password.{Kdf, is_argon2id}
use re_casa_os_user_service.Store.{
  M, Result, ok, raise, ignore, err, pure, recovery_required, user_not_found, exec,
  not_administrator, invalid_reset_target, reset_target_is_administrator,
}
use re_casa_os_user_service.Users.{
  empty_or_over, is_admin, has_line_byte, validate_new_password, new_hash, has_username,
}
use re_casa_os_user_service.Session.Events.{add_event, new_event}
use re_casa_os_user_service.Bootstrap.Create.{create_admin}
use re_casa_os_user_service.Session.Access.{has_id}

-- `usernamePattern`
abbrev pub is_name_start : ℕ → Bool
is_name_start b =
    (leb b'a' b && leb b b'z') || (leb b'A' b && leb b b'Z') || (leb b'0' b && leb b b'9')

abbrev pub is_name_byte : ℕ → Bool
is_name_byte b = is_name_start b || b == b'.' || b == b'_' || b == b'-'

unfoldable pub all_name_bytes : Bytes → Bool
all_name_bytes [] = true
all_name_bytes (b ∷ bs) = is_name_byte b && all_name_bytes bs

unfoldable pub username_pattern : Bytes → Bool
username_pattern [] = false
username_pattern (b ∷ bs) = is_name_start b && leb (length bs) 63 && all_name_bytes bs

abbrev pub loaded_or_empty : Result (Option Bytes) → Bytes
loaded_or_empty (ok (some i)) = i
loaded_or_empty (ok none) = []
loaded_or_empty (err e) = []

unfoldable pub sealed_id : Option Seal → M Bytes
sealed_id none = pure []
sealed_id (some seal) = do loaded ← attempt seal.load; pure (loaded_or_empty loaded)

-- The event of a command: it names the installation itself.
unfoldable pub command_event : Bytes → ℕ → EventType → Bytes → M (Unit {0})
command_event installation_id i event_type source w =
    ignore
      (exec (
        add_event (λ d. record (new_event w i event_type true source [] d) {
          installation_id = installation_id;
        })))
      w

unfoldable pub bootstrap_admin :
    Kdf → (ℕ → Option Bytes) → Option Seal → Bytes → Bytes → Option (ℕ → Result (Unit {0})) → M ℕ
bootstrap_admin k random seal username plaintext before_commit = do
  refuse_if (not (username_pattern username)) invalid_username
  lift (validate_new_password plaintext)
  verifier ← new_hash k plaintext
  user_id ← create_admin random (is_argon2id k) seal username verifier before_commit
  installation_id ← sealed_id seal
  command_event installation_id user_id bootstrap_created (codes "bootstrap")
  pure user_id

-- ResetAdminPassword and ResetUserPassword: the role that they ask of their target.
pub data Target : Type 0 where
  administrator regular : Target

-- What a database of an older release may lack.
pub record Schema : Type 0 where
  pub has_state_table : Bool
  pub has_token_version : Bool
  pub has_sessions : Bool

unfoldable pub valid_reset_username : Bytes → Bool
valid_reset_username name = not (empty_or_over 256 name) && not (has_line_byte name)

abbrev pub admit_role : Target → User → Result User
admit_role administrator u = if is_admin u then ok u else err not_administrator
admit_role regular u = if is_admin u then err reset_target_is_administrator else ok u

abbrev pub unique_row : Target → List User → Result User
unique_row target [] = err user_not_found
unique_row target (u ∷ []) = admit_role target u
unique_row target (u ∷ v ∷ us) = err invalid_reset_target

-- SELECT ... WHERE username = ? LIMIT 2
unfoldable pub load_unique : Target → Bytes → M User
load_unique target name = do
  rows ← query (λ d. take 2 (select_where (has_username name) d.users))
  lift (unique_row target rows)

-- The marker and the seal before anything changes.
abbrev pub check_marker : Option Bytes → Option State → Result (Unit {0})
check_marker seal_id none = if is_some seal_id then err recovery_required else ok tt
check_marker seal_id (some marker) =
    if not (status_eq marker.status initialized) || seal_differs seal_id marker.installation_id
    then err recovery_required
    else ok tt

-- A missing table is created, unless there is a seal already.
unfoldable pub prepare_table : Bool → Option Bytes → M (Unit {0})
prepare_table true seal_id = pure tt
prepare_table false seal_id = do refuse_if (is_some seal_id) recovery_required; exec (λ d. d)

abbrev pub not_sealed : Option Bytes → State → Bool
not_sealed none s = true
not_sealed (some i) s = not (bytes_eq i s.installation_id)

abbrev pub is_marker : State → Result (Option State) → Bool
is_marker s (ok (some marker)) =
    bytes_eq marker.installation_id s.installation_id && status_eq marker.status initialized
is_marker s (ok none) = false
is_marker s (err e) = false

-- WHERE id = ? AND username = ? AND role = ... AND password = ?
abbrev pub is_target : Target → User → Bytes → User → Bool
is_target administrator row name u =
    u.id == row.id && bytes_eq u.username name && is_admin u && bytes_eq u.password row.password
is_target regular row name u =
    u.id == row.id
    && bytes_eq u.username name
    && bytes_eq u.role row.role
    && not (is_admin u)
    && bytes_eq u.password row.password

-- CURRENT_TIMESTAMP counts whole seconds.
abbrev pub replaced : Bytes → ℕ → User → User
replaced verifier at u = record u { password = verifier; updated_at = at - at % second }

unfoldable pub replace_verifier : Target → User → Bytes → Bytes → ℕ → Db → ℕ × Db
replace_verifier target row name verifier at d = (
  count_where (is_target target row name) d.users,
  record d { users = update_where (is_target target row name) (replaced verifier at) d.users },
)

unfoldable pub drop_sessions : ℕ → Db → Db
drop_sessions i d = record d { sessions = delete_where (λ s. s.user_id == i) d.sessions }

-- UPDATE o_users SET token_version = token_version + 1
unfoldable pub bump_version : ℕ → Db → Db
bump_version i d = record d {
  users = update_where (has_id i) (λ u. record u { token_version = u.token_version + 1 }) d.users;
}

-- ignoreMissingAuthTable: a statement on a missing table or column does nothing.
unfoldable pub if_present : Bool → M (Unit {0}) → M (Unit {0})
if_present present m = if present then m else pure tt

unfoldable pub reset_body : Target → Schema → State → Bytes → Bytes → M ℕ
reset_body target schema s name verifier = do
  marker ← attempt (query read_state)
  refuse_if (not (is_marker s marker)) recovery_required
  row ← load_unique target name
  at ← time_now
  rows ← statement (replace_verifier target row name verifier at)
  refuse_if (not (rows == 1)) password_changed
  if_present schema.has_token_version (exec (bump_version row.id))
  if_present schema.has_sessions (exec (drop_sessions row.id))
  pure row.id

unfoldable pub reset_reconciled : (ℕ → Option Bytes) → Seal → Target → Schema → Bytes → Bytes → M ℕ
reset_reconciled random seal target schema name verifier = do
  s ← reconcile_state random (some seal)
  refuse_if (not (status_eq s.status initialized)) recovery_required
  seal_id ← or_error recovery_required seal.load
  refuse_if (not_sealed seal_id s) recovery_required
  with_immediate_transaction (reset_body target schema s name verifier)

unfoldable pub reset_sealed :
    (ℕ → Option Bytes) → Option Seal → Target → Schema → Bytes → Bytes → M ℕ
reset_sealed random none target schema name verifier = raise recovery_required
reset_sealed random (some seal) target schema name verifier = do
  seal_id ← or_error recovery_required seal.load
  present ← query (λ d. schema.has_state_table)
  _ ← load_unique target name
  prepare_table present seal_id
  marker ← query read_state
  lift (check_marker seal_id marker)
  reset_reconciled random seal target schema name verifier

unfoldable pub reset_password :
    Kdf → (ℕ → Option Bytes) → Option Seal → Target → Schema → Bytes → Bytes → Bytes → M (Unit {0})
reset_password k random seal target schema source name plaintext = do
  refuse_if (not (valid_reset_username name)) invalid_reset_target
  lift (validate_new_password plaintext)
  verifier ← new_hash k plaintext
  i ← reset_sealed random seal target schema name verifier
  command_event [] i password_reset source

unfoldable pub reset_admin_password :
    Kdf → (ℕ → Option Bytes) → Option Seal → Schema → Bytes → Bytes → M (Unit {0})
reset_admin_password k random seal schema name plaintext =
    reset_password k random seal administrator schema (codes "admin-reset") name plaintext

unfoldable pub reset_user_password :
    Kdf → (ℕ → Option Bytes) → Option Seal → Schema → Bytes → Bytes → M (Unit {0})
reset_user_password k random seal schema name plaintext =
    reset_password k random seal regular schema (codes "user-reset") name plaintext
