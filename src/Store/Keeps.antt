-- ===== src/Store/Keeps.antt =====
-- Invariants of the tables, one rule for each way to build an action. A rule for a statement asks
-- what the statement does to the tables; a failure, a rollback or a failed commit needs nothing.
use re_casa_os_user_service.Prelude.{
  ℕ, Bool, true, false, Option, none, some, if◌then◌else◌, arith, suc, ◌≡◌, Option-cases, inl, inr,
}
use re_casa_os_user_service.Model.{Db}
use re_casa_os_user_service.Store.{
  Error, Result, ok, err, M, World, pure, raise, lift, or_err, attempt, or_error, ignore, draw,
  statement, query, transaction, refuse_if, unless_ready, time_now, interleave, exec, insert,
  continue, ◌>>=◌, silent_unless_ready,
}

-- `m` keeps `P`, whether it returns or fails.
pub record Keeps {A : Type 0} (P : Db → Type 0) (m : M A) : Type 0 where
  pub at : (w : World) → P w.db → P (m w).1.db

module _ {P : Db → Type 0} {A : Type 0} where
  pub Keeps-pure : (a : A) → Keeps P (pure a)
  unfolding pure
  Keeps-pure a = record { at = λ w h. h }

  pub Keeps-raise : (e : Error) → Keeps P (raise {A = A} e)
  unfolding raise
  Keeps-raise e = record { at = λ w h. h }

  pub Keeps-lift : (r : Result A) → Keeps P (lift r)
  unfolding lift
  Keeps-lift r = record { at = λ w h. h }

  pub Keeps-or_err : (o : Option A) (e : Error) → Keeps P (or_err o e)
  unfolding or_err
  Keeps-or_err none e = record { at = λ w h. h }
  Keeps-or_err (some a) e = record { at = λ w h. h }

  pub Keeps-attempt : (m : M A) → Keeps P m → Keeps P (attempt m)
  unfolding attempt
  Keeps-attempt m k = record { at = λ w h. k.at w h }

  pub Keeps-ignore : (m : M A) → Keeps P m → Keeps P (ignore m)
  unfolding ignore
  Keeps-ignore m k = record { at = λ w h. k.at w h }

  pub Keeps-or_error : (e : Error) (m : M A) → Keeps P m → Keeps P (or_error e m)
  unfolding or_error
  Keeps-or_error e m k = record { at = λ w h. ground (arith, k.at w h) }

  pub Keeps-draw : (f : ℕ → Result A) → Keeps P (draw f)
  unfolding draw
  Keeps-draw f = record { at = λ w h. h }

  pub Keeps-query : (f : Db → A) → Keeps P (query f)
  unfolding query
  Keeps-query f = record { at = λ w h. ground (arith, h) }

  pub Keeps-statement : (f : Db → A × Db) → ((d : Db) → P d → P (f d).1) → Keeps P (statement f)
  unfolding statement
  Keeps-statement f k = record { at = λ w h. ground (arith, h, k w.db h) }

  pub Keeps-silent : (b : Bool) (a : A) (m : M A) → Keeps P m → Keeps P (silent_unless_ready b a m)
  unfolding silent_unless_ready
  Keeps-silent b a m k = record { at = λ w h. ground (arith, h, k.at w h) }

  pub Keeps-if : (b : Bool) (m n : M A) → Keeps P m → Keeps P n → Keeps P (if b then m else n)
  Keeps-if true m n km kn = km
  Keeps-if false m n km kn = kn

  pub Keeps-transaction : (m : M A) → Keeps P m → Keeps P (transaction m)
  unfolding transaction
  Keeps-transaction m k = record {
    at = λ w h. ground (arith, h, k.at (record w { calls = suc w.calls }) h);
  }

module _ {P : Db → Type 0} where
  pub Keeps-refuse_if : (b : Bool) (e : Error) → Keeps P (refuse_if b e)
  unfolding refuse_if
  Keeps-refuse_if true e = record { at = λ w h. h }
  Keeps-refuse_if false e = record { at = λ w h. h }

  pub Keeps-unless_ready : (b : Bool) (e : Error) → Keeps P (unless_ready b e)
  unfolding unless_ready
  Keeps-unless_ready b e = record { at = λ w h. ground (arith, h) }

  pub Keeps-time_now : Keeps P time_now
  unfolding time_now
  Keeps-time_now = record { at = λ w h. h }

  pub Keeps-interleave : (f : Db → Db) → ((d : Db) → P d → P (f d)) → Keeps P (interleave f)
  unfolding interleave
  Keeps-interleave f k = record { at = λ w h. k w.db h }

  pub Keeps-exec : (f : Db → Db) → ((d : Db) → P d → P (f d)) → Keeps P (exec f)
  unfolding exec
  Keeps-exec f k = record { at = λ w h. ground (arith, h, k w.db h) }

  pub Keeps-insert :
      (f : Db → Option Db) → ((d d' : Db) → P d → f d ≡ some d' → P d') → Keeps P (insert f)
  unfolding insert
  Keeps-insert f k = record {
    at = λ w h. elim (Option-cases (f w.db)) [
      | inl e ↦ ground (arith, h)
      | inr (d, e) ↦ ground (arith, h, k w.db d h e)
    ];
  }

module _ {P : Db → Type 0} {A B : Type 0} where
  continue_keeps :
      (f : A → M B) (r : Result A) (w : World)
      → ((a : A) → Keeps P (f a))
      → P w.db
      → P (continue f r w).1.db
  continue_keeps f (ok a) w k h = (k a).at w h
  continue_keeps f (err e) w k h = h

  pub Keeps-bind :
      (m : M A) (f : A → M B) → Keeps P m → ((a : A) → Keeps P (f a)) → Keeps P (m >>= f)
  unfolding ◌>>=◌
  Keeps-bind m f km kf = record {
    at = λ w h. let (r, w') = m w in continue_keeps f r w' kf (km.at w h);
  }

-- The rules that ask nothing of a statement.
pub ruleset keeps_rules = (
  Keeps-pure, Keeps-raise, Keeps-lift, Keeps-or_err, Keeps-attempt, Keeps-ignore, Keeps-or_error,
  Keeps-draw, Keeps-query, Keeps-silent, Keeps-if, Keeps-transaction, Keeps-refuse_if,
  Keeps-unless_ready, Keeps-time_now, Keeps-bind,
)
