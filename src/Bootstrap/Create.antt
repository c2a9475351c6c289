-- ===== src/Bootstrap/Create.antt =====
-- pkg/userbootstrap/bootstrap.go: CreateAdmin, the exactly-once creation of the administrator.
pub mod Once
pub mod Replay
use re_casa_os_user_service.Prelude.{
  ℕ, suc, Bytes, codes, Bool, true, not, Option, none, some, ◌&&◌, ◌||◌, [], ◌∷◌, ◌==◌, bytes_eq,
  exists_where, if◌then◌else◌,
}
use re_casa_os_user_service.Model.{Db, User, State, BootstrapState, pristine, initialized}
use re_casa_os_user_service.Store.{
  M, Result, ok, invalid_argument, inconsistent_state, already_initialized, pure, raise, lift,
  refuse_if, time_now, query, insert, statement, ◌>>=◌, ◌>>◌,
}
use re_casa_os_user_service.Bootstrap.State.{
  Seal, status_eq, user_summary, read_state, reconcile_state, with_immediate_transaction,
}

abbrev pub admin_role : Bytes
admin_role = codes "admin"

abbrev pub new_admin : ℕ → Bytes → Bytes → ℕ → User
new_admin i username password_hash at = record {
  id = i;
  username = username;
  password = password_hash;
  role = admin_role;
  email = [];
  nickname = [];
  avatar = [];
  description = [];
  token_version = 0;
  created_at = at;
  updated_at = at;
}

-- INSERT under the unique index on the username; the id is the last insert id.
unfoldable pub add_admin : Bytes → Bytes → ℕ → Db → Option Db
add_admin username password_hash at d =
    if exists_where (λ u. bytes_eq u.username username) d.users
    then none
    else some (record d {
      users = new_admin d.next_user_id username password_hash at ∷ d.users;
      next_user_id = suc d.next_user_id;
    })

abbrev pub is_setup : State → State → Bool
is_setup s marker =
    status_eq marker.status pristine && bytes_eq marker.installation_id s.installation_id

abbrev pub sealed_row : ℕ → ℕ → BootstrapState → BootstrapState
sealed_row user_id at row = record row {
  status = initialized;
  admin_user_id = some user_id;
  initialized_at = some at;
  updated_at = at;
}

-- UPDATE ... WHERE id = 1 AND installation_id = ? AND status = 'pristine'
unfoldable pub seal_state : State → ℕ → ℕ → Db → ℕ × Db
seal_state s user_id at d = elim d.bootstrap [
  | none ↦ (0, d)
  | some row ↦
      if bytes_eq row.installation_id s.installation_id && status_eq row.status pristine
      then (1, record d { bootstrap = some (sealed_row user_id at row) })
      else (0, d)
]

abbrev pub not_open : State → Option State → ℕ × Option ℕ → Bool
not_open s none summary = true
not_open s (some marker) (count, first) = not (is_setup s marker) || not (count == 0)

unfoldable pub run_hook : Option (ℕ → Result (Unit {0})) → ℕ → Result (Unit {0})
run_hook none i = ok tt
run_hook (some hook) i = hook i

-- Past the check: the row, the hook, the seal of the database. `some` is the new user's id.
unfoldable pub insert_admin : Bytes → Bytes → Option (ℕ → Result (Unit {0})) → State → M (Option ℕ)
insert_admin username password_hash before_commit s = do
  at ← time_now
  created ← query (λ d. d.next_user_id)
  insert (add_admin username password_hash at)
  refuse_if (created == 0) invalid_argument
  lift (run_hook before_commit created)
  rows ← statement (seal_state s created at)
  refuse_if (not (rows == 1)) inconsistent_state
  pure (some created)

-- The closure; `none` is `outcome = ErrAlreadyInitialized`, which commits.
unfoldable pub create_body : Bytes → Bytes → Option (ℕ → Result (Unit {0})) → State → M (Option ℕ)
create_body username password_hash before_commit s = do
  marker ← query read_state
  summary ← query user_summary
  if not_open s marker summary
      then pure none
      else insert_admin username password_hash before_commit s

unfoldable pub finish_create : (ℕ → Option Bytes) → Seal → State → Option ℕ → M ℕ
finish_create random seal s none = do
  _ ← reconcile_state random (some seal)
  raise already_initialized
finish_create random seal s (some created) = do seal.create s.installation_id; pure created

unfoldable pub create_with :
    (ℕ → Option Bytes) → Bytes → Bytes → Option (ℕ → Result (Unit {0})) → Option Seal → State → M ℕ
create_with random username password_hash before_commit none s = raise invalid_argument
create_with random username password_hash before_commit (some seal) s = do
  created ← with_immediate_transaction (create_body username password_hash before_commit s)
  finish_create random seal s created

-- `is_argon2id` is password.IsArgon2id of the hash.
unfoldable pub create_admin :
    (ℕ → Option Bytes)
    → (Bytes → Bool)
    → Option Seal
    → Bytes
    → Bytes
    → Option (ℕ → Result (Unit {0}))
    → M ℕ
create_admin random is_argon2id seal username password_hash before_commit = do
  refuse_if (not (is_argon2id password_hash)) invalid_argument
  s ← reconcile_state random seal
  refuse_if (not (status_eq s.status pristine)) already_initialized
  create_with random username password_hash before_commit seal s
