-- ===== src/Store.antt =====
-- The database as the service sees it: statements that may fail, transactions, and errors.
-- gorm, database/sql and SQLite are not part of this repository. What the code relies on is here:
-- a statement reads or changes the tables at once or fails and changes nothing, and a transaction
-- whose body or commit fails leaves the tables as they were. Which calls fail is a parameter.
pub mod Keeps
pub mod Returns
pub mod Brings
use re_casa_os_user_service.Prelude.{
  ℕ, suc, Bool, true, false, Option, none, some, not, ◌||◌, if◌then◌else◌, Bytes, ◌≡◌, ◌⊎◌, inl,
  inr, refl,
}
use re_casa_os_user_service.Model.{Db, State}

-- The program's sentinel errors, as `errors.Is` tells them apart, and what the outside reports.
-- `session_reuse` is the error of a rotation's closure with the user id that the closure notes.
pub data Error : Type 0 where
  store_failure invalid_argument random_failure : Error
  session_reuse : ℕ → Error
  refresh_session_reused rate_limit_locked invalid_refresh_session refresh_signing : Error
  invalid_session_token invalid_authorization_header unauthorized : Error
  invalid_credentials password_changed last_admin not_administrator user_not_found : Error
  invalid_username invalid_reset_target reset_target_is_administrator weak_password : Error
  invalid_hash password_mismatch : Error
  already_initialized recovery_required inconsistent_state : Error
  seal_failure prepare_failure command_refused : Error

pub data Result {ℓ} (A : Type ℓ) : Type ℓ where
  ok : A → Result A
  err : Error → Result A

-- `ready` says that the service and its database handle are not nil, `clock` is what time.Now()
-- returns, statement number `calls` fails exactly if `fails calls`, `draws` counts the reads of the
-- random source, `seal` is the installation id in the bootstrap seal file, and `state` is the bootstrap state that the service was started with.
pub record World : Type 0 where
  pub db : Db
  pub clock : ℕ
  pub ready : Bool
  pub fails : ℕ → Bool
  pub calls : ℕ
  pub draws : ℕ
  pub seal : Option Bytes
  pub state : State

abbrev pub M : Type 0 → Type 0
M A = World → Result A × World

unfoldable pub pure : {A : Type 0} → A → M A
pure a w = (ok a, w)

unfoldable pub raise : {A : Type 0} → Error → M A
raise e w = (err e, w)

unfoldable pub lift : {A : Type 0} → Result A → M A
lift r w = (r, w)

-- Early returns: go on if the test fails.
unfoldable pub refuse_if : Bool → Error → M (Unit {0})
refuse_if true e w = (err e, w)
refuse_if false e w = (ok tt, w)

-- `if u == nil || u.db == nil || test { return e }`
unfoldable pub unless_ready : Bool → Error → M (Unit {0})
unfolding refuse_if
unless_ready test e w = refuse_if (not w.ready || test) e w

-- `if u == nil || u.db == nil || test { return a }`
unfoldable pub silent_unless_ready : {A : Type 0} → Bool → A → M A → M A
silent_unless_ready test a m w = if not w.ready || test then (ok a, w) else m w

unfoldable pub or_err : {A : Type 0} → Option A → Error → M A
or_err none e w = (err e, w)
or_err (some a) e w = (ok a, w)

-- time.Now()
unfoldable pub time_now : M ℕ
time_now w = (ok w.clock, w)

-- The result of a call as a value: Go's `err := f()`.
unfoldable pub attempt : {A : Type 0} → M A → M (Result A)
attempt m w = let (r, w') = m w in (ok r, w')

-- A failed call, reported as another error.
unfoldable pub or_error : {A : Type 0} → Error → M A → M A
or_error e m w = let (r, w') = m w in elim r [ ok a ↦ (ok a, w') | err _ ↦ (err e, w') ]

-- `_ = f()`: the error is dropped.
unfoldable pub ignore : {A : Type 0} → M A → M (Unit {0})
ignore m w = let (r, w') = m w in (ok tt, w')

-- One read of the random source.
unfoldable pub draw : {A : Type 0} → (ℕ → Result A) → M A
draw f w = (f w.draws, record w { draws = suc w.draws })

-- What other requests commit while this one is outside a transaction.
unfoldable pub interleave : (Db → Db) → M (Unit {0})
interleave others w = (ok tt, record w { db = others w.db })

abbrev pub ticked : World → World
ticked w = record w { calls = suc w.calls }

-- One statement, which returns a value and the new tables.
unfoldable pub statement : {A : Type 0} → (Db → A × Db) → M A
statement f w =
    if w.fails w.calls
    then (err store_failure, ticked w)
    else (let (a, d) = f w.db in (ok a, record (ticked w) { db = d }))

unfoldable pub query : {A : Type 0} → (Db → A) → M A
query f w = if w.fails w.calls then (err store_failure, ticked w) else (ok (f w.db), ticked w)

unfoldable pub exec : (Db → Db) → M (Unit {0})
exec f w =
    if w.fails w.calls
    then (err store_failure, ticked w)
    else (ok tt, record (ticked w) { db = f w.db })

-- An INSERT under unique indexes: `none` is a violated constraint.
unfoldable pub insert : (Db → Option Db) → M (Unit {0})
insert f w = if w.fails w.calls then (err store_failure, ticked w) else elim (f w.db) [
  | none ↦ (err store_failure, ticked w)
  | some d ↦ (ok tt, record (ticked w) { db = d })
]

-- COMMIT, or ROLLBACK to the tables at BEGIN.
abbrev pub settle : {A : Type 0} → Db → Result A → M A
settle d (err e) w = (err e, record w { db = d })
settle d (ok a) w =
    if w.fails w.calls then (err store_failure, record (ticked w) { db = d }) else (ok a, ticked w)

unfoldable pub transaction : {A : Type 0} → M A → M A
transaction m w =
    if w.fails w.calls
    then (err store_failure, ticked w)
    else (let (r, w') = m (ticked w) in settle w.db r w')

abbrev pub continue : {A B : Type 0} → (A → M B) → Result A → M B
continue f (ok a) w = f a w
continue f (err e) w = (err e, w)

infixl 5 ◌>>=◌ ◌>>◌
-- To unfold `>>=` unfolds every action above.
unfoldable pub ◌>>=◌ : {A B : Type 0} → M A → (A → M B) → M B
unfolding pure raise lift unless_ready silent_unless_ready or_err time_now attempt or_error ignore
    draw interleave statement query exec insert transaction
◌>>=◌ m f w = let (r, w') = m w in continue f r w'

abbrev pub ◌>>◌ : {B : Type 0} → M (Unit {0}) → M B → M B
m >> k = m >>= λ _. k

pub Result-cases :
    {A : Type 0} (r : Result A) → ((a : A) × (r ≡ ok a)) ⊎ ((e : Error) × (r ≡ err e))
Result-cases (ok a) = inl (a, refl)
Result-cases (err e) = inr (e, refl)
