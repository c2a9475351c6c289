-- ===== src/Store/Brings.antt =====
-- What an action on the tables brings about if it succeeds.
use re_casa_os_user_service.Prelude.{◌≡◌, subst, sym, arith, refl}
use re_casa_os_user_service.Store.{M, ◌>>=◌, continue, World, pure, ok, err}
use re_casa_os_user_service.Model.{Db}
use re_casa_os_user_service.Store.Keeps.{Keeps}

-- Started where `Pre` holds of the tables, if `m` succeeds, its value and the tables have `Post`.
pub record Brings {A : Type 0} (Pre : Db → Type 0) (Post : A → Db → Type 0) (m : M A) : Type 0 where
  pub at : (w : World) → Pre w.db → (a : A) → (m w).0 ≡ ok a → Post a (m w).1.db

pub Brings-bind :
    {A B : Type 0} (Pre : Db → Type 0) (Mid : A → Db → Type 0) (Post : B → Db → Type 0) (m : M A)
    (f : A → M B)
    → Brings Pre Mid m
    → ((a : A) → Brings (Mid a) Post (f a))
    → Brings Pre Post (m >>= f)
unfolding ◌>>=◌
Brings-bind Pre Mid Post m f km kf = record {
  at = λ w p b.
      elim (m w).0
          as (λ r.
            r ≡ (m w).0 → (continue f r (m w).1).0 ≡ ok b → Post b (continue f r (m w).1).1.db) [
              | ok a ↦ λ e z. (kf a).at (m w).1 (km.at w p a (sym e)) b z
              | err x ↦ λ e z. absurd (ground (arith, z))
            ]
        refl;
}

pub Brings-Keeps : {A : Type 0} (P : Db → Type 0) (m : M A) → Keeps P m → Brings P (λ a. P) m
Brings-Keeps P m k = record { at = λ w p a z. k.at w p }

pub Brings-keep :
    {A B : Type 0} (P : Db → Type 0) (Post : B → Db → Type 0) (m : M A) (f : A → M B)
    → Keeps P m
    → ((a : A) → Brings P Post (f a))
    → Brings P Post (m >>= f)
Brings-keep P Post m f k kf = Brings-bind P (λ a. P) Post m f (Brings-Keeps P m k) kf

pub Brings-pure : {A : Type 0} (Post : A → Db → Type 0) (a : A) → Brings (Post a) Post (pure a)
unfolding pure
Brings-pure Post a = record { at = λ w p b z. subst (λ x. Post x w.db) (ground (arith, z)) p }
