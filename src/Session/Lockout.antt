-- ===== src/Session/Lockout.antt =====
-- service/session.go: the failure budgets of the credential endpoints.
pub mod Budget
pub mod Liveness
use re_casa_os_user_service.Prelude.{
  ℕ, suc, ◌+◌, ◌-◌, ◌*◌, Bytes, codes, Bool, true, false, Option, none, some, ◌||◌, ◌∷◌, ◌++◌, ltb,
  leb, ◌==◌, is_empty, bytes_eq, find_where, update_where, delete_where, exists_where,
  if◌then◌else◌,
}
use re_casa_os_user_service.Model.{Db, LoginAttempt, minute, hour}
use re_casa_os_user_service.Store.{
  M, Result, ok, invalid_argument, pure, ◌>>=◌, ◌>>◌, unless_ready, attempt, ignore, query, exec,
  insert, transaction, silent_unless_ready,
}

abbrev pub login_failure_limit : ℕ
login_failure_limit = 5

abbrev pub login_lockout_window : ℕ
login_lockout_window = hour

abbrev pub login_lockout_length : ℕ
login_lockout_length = 15 * minute

unfoldable pub login_attempt_key : Bytes → Bytes → Bytes
login_attempt_key namespace value = namespace ++ (codes ":" ++ value)

abbrev pub has_key : Bytes → LoginAttempt → Bool
has_key k a = bytes_eq a.key k

unfoldable pub find_attempt : Bytes → Db → Option LoginAttempt
find_attempt k d = find_where (has_key k) d.attempts

-- Locked and for how long: `locked_until != nil && now.Before(*locked_until)`.
unfoldable pub lock_state : ℕ → LoginAttempt → Bool × ℕ
lock_state now a = elim a.locked_until [
  | none ↦ (false, 0)
  | some until ↦ if ltb now until then (true, until - now) else (false, 0)
]

abbrev pub lockout_of : ℕ → Result (Option LoginAttempt) → Bool × ℕ
lockout_of now (ok (some a)) = lock_state now a
lockout_of now _ = (false, 0)

unfoldable pub check_login_lockout : Bytes → ℕ → M (Bool × ℕ)
check_login_lockout key now =
    silent_unless_ready (is_empty key) (false, 0)
      (do found ← attempt (query (find_attempt key)); pure (lockout_of now found))

abbrev pub new_attempt : Bytes → ℕ → LoginAttempt
new_attempt key now = record {
  key = key;
  failures = 0;
  window_started_at = now;
  locked_until = none;
}

unfoldable pub add_attempt : LoginAttempt → Db → Option Db
add_attempt a d =
    if exists_where (has_key a.key) d.attempts
    then none
    else some (record d { attempts = a ∷ d.attempts })

-- Save by primary key.
unfoldable pub save_attempt : LoginAttempt → Db → Db
save_attempt a d =
    if exists_where (has_key a.key) d.attempts
    then record d { attempts = update_where (has_key a.key) (λ _. a) d.attempts }
    else record d { attempts = a ∷ d.attempts }

-- A window that never began or is over starts again.
unfoldable pub restart_window : ℕ → LoginAttempt → LoginAttempt
restart_window now a =
    if a.window_started_at == 0 || ltb (a.window_started_at + login_lockout_window) now
    then record a { failures = 0; window_started_at = now; locked_until = none }
    else a

unfoldable pub add_failure : ℕ → LoginAttempt → LoginAttempt
add_failure now a =
    let n = suc a.failures in
    if leb login_failure_limit n
    then record a { failures = n; locked_until = some (now + login_lockout_length) }
    else record a { failures = n }

unfoldable pub failure_result : LoginAttempt → Bool × ℕ
failure_result a =
    if leb login_failure_limit a.failures then (true, login_lockout_length) else (false, 0)

abbrev pub is_locked : Bool × ℕ → Bool
is_locked (b, n) = b

unfoldable pub count_failure : ℕ → LoginAttempt → M (Bool × ℕ)
count_failure now a w =
    if is_locked (lock_state now a)
    then pure (lock_state now a) w
    else (let counted = add_failure now (restart_window now a) in
        (do exec (save_attempt counted); pure (failure_result counted)) w)

abbrev pub load_or_create : Bytes → ℕ → Option LoginAttempt → M LoginAttempt
load_or_create key now (some a) = pure a
load_or_create key now none = do
  insert (add_attempt (new_attempt key now))
  pure (new_attempt key now)

unfoldable pub record_login_failure : Bytes → ℕ → M (Bool × ℕ)
record_login_failure key now = do
  unless_ready (is_empty key) invalid_argument
  transaction
      (do found ← query (find_attempt key); a ← load_or_create key now found; count_failure now a)

unfoldable pub clear_attempt : Bytes → Db → Db
clear_attempt key d = record d { attempts = delete_where (has_key key) d.attempts }

unfoldable pub record_login_success : Bytes → M (Unit {0})
record_login_success key = silent_unless_ready (is_empty key) tt (ignore (exec (clear_attempt key)))
