-- ===== src/Store/Returns.antt =====
-- Actions that never fail, with a property of what they return: the handlers, which turn each error
-- of a call into a reply.
use re_casa_os_user_service.Prelude.{
  Bool, true, false, ◌≡◌, refl, if◌then◌else◌, Bool-cases, subst, not, sym, ◌||◌, inl, arith, inr,
}
use re_casa_os_user_service.Store.{
  M, World, ok, pure, silent_unless_ready, ignore, ◌>>=◌, attempt, time_now, continue, interleave,
}
use re_casa_os_user_service.Model.{Db}

-- `m` returns in every world, and what it returns has `P`.
pub record Returns {A : Type 0} (P : A → Type 0) (m : M A) : Type 0 where
  pub at : (w : World) → (a : A) × ((m w).0 ≡ ok a) × P a

module _ {A : Type 0} where
  pub Returns-pure : (P : A → Type 0) (a : A) → P a → Returns P (pure a)
  unfolding pure
  Returns-pure P a p = record { at = λ w. (a, refl, p) }

  pub Returns-attempt : (m : M A) → Returns (λ r. Unit {0}) (attempt m)
  unfolding attempt
  Returns-attempt m = record { at = λ w. ((m w).0, refl, tt) }

  pub Returns-if :
      (P : A → Type 0) (b : Bool) (m n : M A)
      → Returns P m
      → Returns P n
      → Returns P (if b then m else n)
  Returns-if P true m n km kn = km
  Returns-if P false m n km kn = kn

module _ {A B : Type 0} where
  pub Returns-bind :
      (P : B → Type 0) (Q : A → Type 0) (m : M A) (f : A → M B)
      → Returns Q m
      → ((a : A) → Q a → Returns P (f a))
      → Returns P (m >>= f)
  unfolding ◌>>=◌
  Returns-bind P Q m f km kf = record {
    at = λ w.
        let (a, e, q) = km.at w in
        let (b, e', p) = (kf a q).at (m w).1 in
        (b, subst (λ r. (continue f r (m w).1).0 ≡ ok b) (sym e) e', p);
  }

pub Returns-time_now : Returns (λ t. Unit {0}) time_now
unfolding time_now
Returns-time_now = record { at = λ w. (w.clock, refl, tt) }

pub Returns-interleave : (f : Db → Db) → Returns (λ t. Unit {0}) (interleave f)
unfolding interleave
Returns-interleave f = record { at = λ w. (tt, refl, tt) }

pub Returns-ignore : {A : Type 0} (m : M A) → Returns (λ t. Unit {0}) (ignore m)
unfolding ignore
Returns-ignore m = record { at = λ w. (tt, refl, tt) }

pub Returns-silent :
    {A : Type 0} (P : A → Type 0) (b : Bool) (a : A) (m : M A)
    → P a
    → Returns P m
    → Returns P (silent_unless_ready b a m)
unfolding silent_unless_ready
Returns-silent P b a m p k = record {
  at = λ w. elim (Bool-cases (not w.ready || b)) [
    | inl t ↦ (a, ground (arith, t), p)
    | inr t ↦ (let (x, e, q) = k.at w in (x, ground (arith, t, e), q))
  ];
}
