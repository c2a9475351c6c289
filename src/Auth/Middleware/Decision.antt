-- ===== src/Auth/Middleware/Decision.antt =====
-- What the middleware of route/auth.go decides.
use re_casa_os_user_service.Prelude.{
  ℕ, Bool, Option, List, Bytes, ◌≡◌, arith, some, bytes_eq, true, count_where, inr, Option-cases,
  inl, ◌⊎◌, ◌∙◌, ap,
}
use re_casa_os_user_service.Tokens.{Crypto, SessionClaims, validate_session_access_token}
use re_casa_os_user_service.Store.{
  ◌>>=◌, refuse_if, World, Error, err, ok, unauthorized, Result-cases,
}
use re_casa_os_user_service.Auth.Middleware.{
  authenticate, AuthenticatedSession, authenticated, admit,
}
use re_casa_os_user_service.Session.Access.{
  get_user_token_version, is_access_token_revoked, find_user, has_jti,
}
use re_casa_os_user_service.Model.{User, Db}
use re_casa_os_user_service.Auth.Header.{authorization_token}
use re_casa_os_user_service.Prelude.Int.{pos}

module _ (others : Db → Db) (has_sessions : Bool) (request : ℕ) (claims : SessionClaims)
    (w : World) where
  admit_readonly : (admit (λ d. d) has_sessions request claims w).1.db ≡ w.db
  unfolding ◌>>=◌ admit get_user_token_version is_access_token_revoked refuse_if
  admit_readonly = ground arith

  admit_ok :
      (s : AuthenticatedSession)
      → (admit others has_sessions request claims w).0 ≡ ok s
      → (u : User) × (find_user claims.user_id w.db ≡ some u)
        × (bytes_eq u.username claims.username ≡ true)
        × (claims.token_version ≡ pos u.token_version)
        × (count_where (has_jti claims.id) (others w.db).revoked ≡ 0)
        × (s ≡ authenticated request claims)
  unfolding ◌>>=◌ admit get_user_token_version is_access_token_revoked refuse_if
  admit_ok s h = elim (Option-cases (find_user claims.user_id w.db)) [
    | inl e ↦ absurd (ground (arith, e))
    | inr (u, e) ↦
        (u, e, ground (arith, e), ground (arith, e), ground (arith, e), ground (arith, e))
  ]

  admit_err :
      (e : Error) → (admit others has_sessions request claims w).0 ≡ err e → e ≡ unauthorized
  unfolding ◌>>=◌ admit get_user_token_version is_access_token_revoked refuse_if
  admit_err e h = ground arith

module _ (c : Crypto) (has_sessions : Bool) (request : ℕ) (values : Option (List Bytes)) where
  readonly :
      (w : World)
      → ((authenticate c (λ d. d) has_sessions request values w).1.db ≡ w.db)
        × ((e : Error)
            → (authenticate c (λ d. d) has_sessions request values w).0 ≡ err e
            → e ≡ unauthorized)
  unfolding ◌>>=◌ authenticate
  readonly w = elim (Result-cases (authorization_token values)) [
    | inr (x, e) ↦ (ground (arith, e), λ y h. ground (arith, e))
    | inl (token, e) ↦ elim (Result-cases (validate_session_access_token c w.clock token)) [
      | inr (x, e') ↦ (ground (arith, e, e'), λ y h. ground (arith, e, e'))
      | inl (claims, e') ↦ (
        ground (arith, e, e', admit_readonly (λ d. d) has_sessions request claims w),
        λ y h. ground (arith, e, e', admit_err (λ d. d) has_sessions request claims w y),
      )
    ]
  ]

  -- Deciding changes no table when no other request commits, and it either admits the request or refuses it with the one error
  -- that says nothing about the reason.
  pub authenticate_refusal :
      (w : World)
      → ((authenticate c (λ d. d) has_sessions request values w).1.db ≡ w.db)
        × (((authenticate c (λ d. d) has_sessions request values w).0 ≡ err unauthorized)
            ⊎ ((s : AuthenticatedSession) × ((authenticate c
                    (λ d. d)
                    has_sessions
                    request
                    values
                    w).0
                  ≡ ok s)))
  authenticate_refusal w =
      let (same, refused) = readonly w in
      (
        same,
        elim (Result-cases (authenticate c (λ d. d) has_sessions request values w).0) [
          | inl (s, e) ↦ inr (s, e)
          | inr (x, e) ↦ inl (e ∙ ap (λ y. err y) (refused x e))
        ],
      )

  -- An admitted request carries a valid access token whose user still exists under the same name
  -- and credential generation, and whose token id is not on the
  -- denylist when that is read, whatever other requests commit between the two.
  pub authenticate_ok :
      (others : Db → Db) (w : World) (s : AuthenticatedSession)
      → (authenticate c others has_sessions request values w).0 ≡ ok s
      → (token : Bytes) × (claims : SessionClaims) × (u : User) × (authorization_token values
          ≡ ok token)
        × (validate_session_access_token c w.clock token ≡ ok claims)
        × (find_user claims.user_id w.db ≡ some u)
        × (bytes_eq u.username claims.username ≡ true)
        × (claims.token_version ≡ pos u.token_version)
        × (count_where (has_jti claims.id) (others w.db).revoked ≡ 0)
        × (s ≡ authenticated request claims)
  unfolding ◌>>=◌ authenticate
  authenticate_ok others w s h = elim (Result-cases (authorization_token values)) [
    | inr (x, e) ↦ absurd (ground (arith, e))
    | inl (token, e) ↦ elim (Result-cases (validate_session_access_token c w.clock token)) [
      | inr (x, e') ↦ absurd (ground (arith, e, e'))
      | inl (claims, e') ↦
          let (u, a1, a2, a3, a4, a5) =
            admit_ok others has_sessions request claims w s (ground (arith, e, e')) in
          (token, claims, u, e, e', a1, a2, a3, a4, a5)
    ]
  ]
