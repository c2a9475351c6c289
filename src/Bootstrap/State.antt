-- ===== src/Bootstrap/State.antt =====
-- pkg/userbootstrap/bootstrap.go: ReconcileState, the fail-closed restore state machine.
pub mod Closed
pub mod UsersKept
use re_casa_os_user_service.Prelude.{
  ℕ, Bytes, Bool, true, false, not, Option, none, some, ◌||◌, List, [], ◌∷◌, ltb, ◌==◌, is_some,
  bytes_eq, length, if◌then◌else◌,
}
use re_casa_os_user_service.Model.{
  Db, User, State, Status, pristine, initialized, recovery, other, BootstrapState,
}
use re_casa_os_user_service.Store.{
  draw, M, invalid_argument, random_failure, inconsistent_state, recovery_required, pure, raise,
  refuse_if, time_now, query, exec, insert, statement, transaction, ◌>>=◌, ◌>>◌, Result, err, ok,
}
use re_casa_os_user_service.Bootstrap.Identifier.{valid_installation_id, installation_id_of}

-- The interface Seal: an integrity marker outside the database directory.
pub record Seal : Type 0 where
  pub load : M (Option Bytes)
  pub create : Bytes → M (Unit {0})

unfoldable pub status_eq : Status → Status → Bool
status_eq pristine pristine = true
status_eq initialized initialized = true
status_eq recovery recovery = true
status_eq (other s) (other t) = bytes_eq s t
status_eq _ _ = false

unfoldable pub valid_status : Status → Bool
valid_status (other s) = false
valid_status _ = true

abbrev id_or_error : Option Bytes → Result Bytes
id_or_error none = err random_failure
id_or_error (some value) = ok (installation_id_of value)

-- `random` gives the 16 bytes of each read of the random source.
unfoldable pub new_installation_id : (ℕ → Option Bytes) → M Bytes
new_installation_id random = draw (λ n. id_or_error (random n))

abbrev pub least_id : List User → Option ℕ
least_id [] = none
least_id (u ∷ us) = elim (least_id us) [
  | none ↦ some u.id
  | some i ↦ some (if ltb u.id i then u.id else i)
]

-- SELECT COUNT(*), MIN(id) FROM o_users
unfoldable pub user_summary : Db → ℕ × Option ℕ
user_summary d = (length d.users, least_id d.users)

abbrev pub state_of : BootstrapState → State
state_of row = record { installation_id = row.installation_id; status = row.status }

abbrev pub read_state : Db → Option State
read_state d = elim d.bootstrap [ none ↦ none | some row ↦ some (state_of row) ]

abbrev pub when_initialized : Status → ℕ → Option ℕ
when_initialized initialized at = some at
when_initialized _ at = none

unfoldable pub insert_row : State → Option ℕ → ℕ → Db → Option Db
insert_row s admin at d = elim d.bootstrap [
  | some row ↦ none
  | none ↦ some (record d {
    bootstrap = some (record {
      installation_id = s.installation_id;
      status = s.status;
      admin_user_id = admin;
      initialized_at = when_initialized s.status at;
      created_at = at;
      updated_at = at;
    });
  })
]

abbrev pub updated_row : State → Option ℕ → ℕ → BootstrapState → BootstrapState
updated_row s admin at row = record row {
  installation_id = s.installation_id;
  status = s.status;
  admin_user_id = admin;
  initialized_at = when_initialized s.status at;
  updated_at = at;
}

-- The number of rows affected, and the tables.
unfoldable pub update_row : State → Option ℕ → ℕ → Db → ℕ × Db
update_row s admin at d = elim d.bootstrap [
  | none ↦ (0, d)
  | some row ↦ (1, record d { bootstrap = some (updated_row s admin at row) })
]

unfoldable pub update_state : State → Option ℕ → ℕ → M (Unit {0})
update_state s admin at = do
  rows ← statement (update_row s admin at)
  refuse_if (not (rows == 1)) inconsistent_state

-- What the closure of ReconcileState leaves behind for the code after the transaction.
pub record Outcome : Type 0 where
  pub result : State
  pub create_seal : Bool
  pub needs_recovery : Bool

abbrev pub outcome : Bytes → Status → Bool → Bool → Outcome
outcome i s create rec = record {
  result = record { installation_id = i; status = s };
  create_seal = create;
  needs_recovery = rec;
}

-- No marker row: a seal without one is a restored or emptied database.
unfoldable pub reconcile_absent : Option Bytes → Bytes → ℕ → Outcome
reconcile_absent (some seal_id) new_id count = outcome seal_id recovery false true
reconcile_absent none new_id count =
    if ltb 0 count
    then outcome new_id initialized true false
    else outcome new_id pristine false false

abbrev pub seal_or : Option Bytes → Bytes → Bytes
seal_or none i = i
seal_or (some j) i = j

abbrev pub seal_differs : Option Bytes → Bytes → Bool
seal_differs none i = false
seal_differs (some j) i = not (bytes_eq j i)

unfoldable pub reconcile_marker : Option Bytes → Bytes → Status → ℕ → Outcome
reconcile_marker seal i recovery count = outcome i recovery false true
reconcile_marker seal i pristine count =
    if is_some seal
    then outcome i recovery false true
    else if ltb 0 count
    then outcome i initialized true false
    else outcome i pristine false false
reconcile_marker seal i initialized count =
    if count == 0
    then outcome i recovery false true
    else if seal_differs seal i
    then outcome i recovery false true
    else outcome i initialized (not (is_some seal)) false
reconcile_marker seal i (other s) count = outcome i (other s) false false

abbrev pub is_invalid : State → Bool
is_invalid marker =
    not (valid_installation_id marker.installation_id) || not (valid_status marker.status)

unfoldable pub update_if : Bool → State → Option ℕ → ℕ → M (Unit {0})
update_if true s admin at = update_state s admin at
update_if false s admin at = pure tt

unfoldable pub reconcile_present : Option Bytes → Bytes → State → ℕ → Option ℕ → ℕ → M Outcome
reconcile_present seal new_id marker count first at =
    if is_invalid marker
    then (let o = outcome (seal_or seal new_id) recovery false true in
        do update_state o.result first at; pure o)
    else (let o = reconcile_marker seal marker.installation_id marker.status count in
        do update_if (not (status_eq o.result.status marker.status)) o.result first at; pure o)

unfoldable pub reconcile_by : Option Bytes → Bytes → Option State → ℕ × Option ℕ → ℕ → M Outcome
reconcile_by seal new_id (some marker) (count, first) at =
    reconcile_present seal new_id marker count first at
reconcile_by seal new_id none (count, first) at =
    let o = reconcile_absent seal new_id count in do insert (insert_row o.result first at); pure o

-- The closure.
unfoldable pub reconcile_body : Option Bytes → Bytes → M Outcome
reconcile_body seal new_id = do
  marker ← query read_state
  summary ← query user_summary
  at ← time_now
  reconcile_by seal new_id marker summary at

-- A connection from the pool, then BEGIN IMMEDIATE ... COMMIT.
unfoldable pub with_immediate_transaction : {A : Type 0} → M A → M A
with_immediate_transaction m = do exec (λ d. d); transaction m

unfoldable pub seal_if : Bool → Seal → Bytes → M (Unit {0})
seal_if true seal i = seal.create i
seal_if false seal i = pure tt

unfoldable pub reconcile_state : (ℕ → Option Bytes) → Option Seal → M State
reconcile_state random none = raise invalid_argument
reconcile_state random (some seal) = do
  seal_id ← seal.load
  new_id ← new_installation_id random
  o ← with_immediate_transaction (reconcile_body seal_id new_id)
  seal_if o.create_seal seal o.result.installation_id
  refuse_if o.needs_recovery recovery_required
  pure o.result
