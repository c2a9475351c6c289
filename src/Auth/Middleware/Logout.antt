-- ===== src/Auth/Middleware/Logout.antt =====
-- A session that logged out in service/session.go is refused by route/auth.go.
use re_casa_os_user_service.Prelude.{
  ℕ, Bytes, Bool, Option, List, ◌≡◌, ◌≢◌, exists_where, count_where, true, arith, bytes_eq_refl,
  codes, ◌∷◌, [], subst, inr, sym, ap, inl, ◌∙◌,
}
use re_casa_os_user_service.Auth.Middleware.{authenticated, AuthenticatedSession, authenticate}
use re_casa_os_user_service.Store.{◌>>=◌, World, refuse_if, ok, Result-cases}
use re_casa_os_user_service.Session.Access.{add_revoked, revoke_access_token, has_jti}
use re_casa_os_user_service.Model.{RevokedAccessToken, Db}
use re_casa_os_user_service.Session.Refresh.{logout_session, revoke_user_refresh_session}
use re_casa_os_user_service.Tokens.{Crypto}
use re_casa_os_user_service.Auth.Middleware.Decision.{authenticate_ok}

count_exists :
    (t : Bytes) (rs : List RevokedAccessToken)
    → exists_where (has_jti t) rs ≡ true
    → count_where (has_jti t) rs ≢ 0
unfolding exists_where count_where
count_exists t [] h = absurd (ground (arith, h))
count_exists t (r ∷ rs) h = ground (arith, count_exists t rs)

exists_added :
    (r : RevokedAccessToken) (d : Db)
    → exists_where (has_jti r.jti) (add_revoked r d).revoked ≡ true
unfolding add_revoked exists_where
exists_added r d = ground (arith, bytes_eq_refl r.jti)

denied :
    (t : Bytes) (i e : ℕ) (w : World)
    → (revoke_access_token t i e w).0 ≡ ok tt
    → exists_where (has_jti t) (revoke_access_token t i e w).1.db.revoked ≡ true
unfolding ◌>>=◌ revoke_access_token refuse_if
denied t i e w h =
    ground (arith, h, exists_added (record { jti = t; user_id = i; expires_at = e }) w.db)

pub logout_denies :
    (i : ℕ) (t : Bytes) (e : ℕ) (w : World)
    → (logout_session i t e w).0 ≡ ok tt
    → exists_where (has_jti t) (logout_session i t e w).1.db.revoked ≡ true
unfolding ◌>>=◌ logout_session refuse_if
logout_denies i t e w h =
    let w' = (revoke_user_refresh_session i t (codes "logout") w).1 in
    elim (Result-cases (revoke_access_token t i e w').0) [
      | inr (x, f) ↦ absurd (ground (arith, h, f))
      | inl (u, f) ↦ ground (arith, h, f, denied t i e w')
    ]

-- A token id on the denylist admits nobody.
pub denied_not_admitted :
    (t : Bytes) (w : World) (c : Crypto) (others : Db → Db) (has_sessions : Bool) (request : ℕ)
    (values : Option (List Bytes)) (s : AuthenticatedSession)
    → exists_where (has_jti t) (others w.db).revoked ≡ true
    → (authenticate c others has_sessions request values w).0 ≡ ok s
    → s.token_id ≢ t
unfolding authenticated
denied_not_admitted t w c others has_sessions request values s on_list admitted_as is_t =
    let (token, claims, u, a1, a2, a3, a4, a5, none_denied, shape) =
      authenticate_ok c has_sessions request values others w s admitted_as in
    count_exists t (others w.db).revoked on_list (
      subst (λ x. count_where (has_jti x) (others w.db).revoked ≡ 0)
        (ap (λ (x : AuthenticatedSession). x.token_id) (sym shape) ∙ is_t) none_denied)

-- Once a logout succeeded, no request is admitted with the token id of that session if the tables
-- at the reading of the denylist are those that the logout left.
pub logout_refused :
    (i : ℕ) (t : Bytes) (e : ℕ) (w w' : World) (c : Crypto) (others : Db → Db) (has_sessions : Bool)
    (request : ℕ) (values : Option (List Bytes)) (s : AuthenticatedSession)
    → (logout_session i t e w).0 ≡ ok tt
    → others w'.db ≡ (logout_session i t e w).1.db
    → (authenticate c others has_sessions request values w').0 ≡ ok s
    → s.token_id ≢ t
logout_refused i t e w w' c others has_sessions request values s h same =
    denied_not_admitted t w' c others has_sessions request values s
      (subst (λ d. exists_where (has_jti t) d.revoked ≡ true) (sym same) (logout_denies i t e w h))
