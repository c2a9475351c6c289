-- ===== src/Session/Issue/Refreshed.antt =====
-- What a refresh of service/session_issue.go has checked when it returns new tokens.
use re_casa_os_user_service.Prelude.{
  ℕ, Bytes, Bool, true, Option, none, some, ◌≡◌, refl, arith, Option-cases, ◌≢◌, inl, inr, ◌+◌,
  bytes_eq, ◌∙◌, ◌<◌, ◌⊎◌, ap, sym, subst, Bool-cases,
}
use re_casa_os_user_service.Store.{
  ◌>>=◌, World, refuse_if, Result, ok, err, Result-cases, Error, ticked, store_failure,
}
use re_casa_os_user_service.Tokens.{
  new_token_id, mint_session_token, Crypto, SessionClaims, mint_refresh_token, mint_access_token,
  refresh_token_lifetime, access_token_issuer, access_token_lifetime, refresh_token_issuer,
  validate_session_refresh_token,
}
use re_casa_os_user_service.Session.Issue.{
  agreed_user, refuse_refresh, reissue, after_rotation, IssuedSession, issued_pair,
  issue_refreshed_tokens, refresh_lock_key,
}
use re_casa_os_user_service.Session.Lockout.{record_login_success, check_login_lockout}
use re_casa_os_user_service.Session.Prune.{prune_auth_state}
use re_casa_os_user_service.Model.{RefreshSession, User, Db}
use re_casa_os_user_service.Session.Refresh.{
  rotate_refresh_session, find_session, Moment, before_lookup, before_rotation,
}
use re_casa_os_user_service.Prelude.Int.{int_eq, pos}
use re_casa_os_user_service.Session.Refresh.Rotation.{rotate_ok}
use re_casa_os_user_service.Session.Access.{find_user}

agreed_ok :
    (claims : SessionClaims) (r : Result (Option User)) (u : User)
    → agreed_user claims r ≡ some u
    → (r ≡ ok (some u))
      × (bytes_eq u.username claims.username ≡ true)
      × (int_eq (pos u.token_version) claims.token_version ≡ true)
unfolding agreed_user
agreed_ok claims (ok (some v)) u h = (ground (arith, h), ground (arith, h), ground (arith, h))
agreed_ok claims (ok none) u h = absurd (ground (arith, h))
agreed_ok claims (err e) u h = absurd (ground (arith, h))

new_id_readonly : (c : Crypto) (w : World) → (new_token_id c w).1.db ≡ w.db
unfolding new_token_id ◌>>=◌
new_id_readonly c w = refl

mint_readonly :
    (c : Crypto) (name : Bytes) (i v : ℕ) (t issuer : Bytes) (life : ℕ) (w : World)
    → (mint_session_token c name i v t issuer life w).1.db ≡ w.db
unfolding mint_session_token ◌>>=◌ refuse_if
mint_readonly c name i v t issuer life w = elim (Option-cases c.private_key) [
  | inl e ↦ ground (arith, e)
  | inr (k, e) ↦ ground (arith, e)
]

refused_err :
    (key : Bytes) (now : ℕ) (w : World) (x : IssuedSession) → (refuse_refresh key now w).0 ≢ ok x
unfolding ◌>>=◌ refuse_refresh
refused_err key now w x h = ground (arith, h)

module _ (c : Crypto) (ties : Bytes → Bytes → Bool) (o : Moment → Db → Db) (key presented : Bytes)
    (now : ℕ) where
  after_ok :
      (i x : IssuedSession) (r : Result RefreshSession) (w : World)
      → (after_rotation c ties o key now i r w).0 ≡ ok x
      → (cur : RefreshSession) × (r ≡ ok cur) × (x ≡ i)
  unfolding ◌>>=◌ after_rotation record_login_success prune_auth_state
  after_ok i x (ok cur) w h = (cur, refl, ground (arith, h))
  after_ok i x (err e) w h = absurd (ground (arith, h, refused_err key now w x))

  abbrev rotation : Bytes → Bytes → World → Result RefreshSession × World
  rotation rid refresh w3 =
      rotate_refresh_session o (c.sha256_hex presented) rid (c.sha256_hex refresh) now
        (now + refresh_token_lifetime) now w3

  reissue_runs :
      (u : User) (w : World) (x : IssuedSession)
      → (reissue c ties o key presented now (some u) w).0 ≡ ok x
      → (rid : Bytes) × (refresh : Bytes) × (access : Bytes) × (w3 : World) × (w3.db
          ≡ o before_rotation w.db)
        × ((after_rotation c ties o key now
              (issued_pair u rid access refresh now)
              (rotation rid refresh w3).0
              (rotation rid refresh w3).1).0
            ≡ ok x)
  unfolding ◌>>=◌ reissue mint_refresh_token mint_access_token
  reissue_runs u w x h =
      let w1 = (new_token_id c w).1 in
      elim (Result-cases (new_token_id c w).0) [
        | inr (y, e) ↦ absurd (ground (arith, e, h))
        | inl (rid, e) ↦
            let w2 = (mint_refresh_token c u.username u.id u.token_version rid w1).1 in
            elim (Result-cases (mint_refresh_token c u.username u.id u.token_version rid w1).0) [
              | inr (y, e') ↦ absurd (ground (arith, e, e', h))
              | inl (refresh, e') ↦
                  let w3 = (mint_access_token c u.username u.id u.token_version rid w2).1 in
                  elim (Result-cases
                    (mint_access_token c u.username u.id u.token_version rid w2).0) [
                      | inr (y, e'') ↦ absurd (ground (arith, e, e', e'', h))
                      | inl (access, e'') ↦ (
                        rid,
                        refresh,
                        access,
                        record w3 { db = o before_rotation w3.db },
                        ap (o before_rotation) (
                            mint_readonly c u.username u.id u.token_version rid access_token_issuer
                              access_token_lifetime w2
                            ∙ mint_readonly c u.username u.id u.token_version rid
                                refresh_token_issuer refresh_token_lifetime w1
                            ∙ new_id_readonly c w),
                        ground (arith, e, e', e'', h),
                      )
                    ]
            ]
      ]

  reissue_ok :
      (v : Option User) (w : World) (x : IssuedSession)
      → (reissue c ties o key presented now v w).0 ≡ ok x
      → (v ≡ some x.user)
        × (row : RefreshSession) × (find_session (c.sha256_hex presented) (o before_rotation w.db)
            ≡ some row)
        × (row.used_at ≡ none)
        × (row.revoked_at ≡ none)
        × (now < row.expires_at)
  unfolding ◌>>=◌ reissue issued_pair
  reissue_ok none w x h = absurd (refused_err key now w x h)
  reissue_ok (some u) w x h =
      let (rid, refresh, access, w3, same, tail) = reissue_runs u w x h in
      let (cur, rotated_cur, shape) =
        after_ok (issued_pair u rid access refresh now) x (rotation rid refresh w3).0
          (rotation rid refresh w3).1 tail in
      let (row, found, a, b, lt, y, z) =
        rotate_ok o (c.sha256_hex presented) rid (c.sha256_hex refresh) now
          (now + refresh_token_lifetime) now w3 cur rotated_cur in
      (
        ap some (ap (λ (s : IssuedSession). s.user) (sym shape)),
        row,
        subst (λ d. find_session (c.sha256_hex presented) d ≡ some row) same found,
        a,
        b,
        lt,
      )

lockout_readonly : (key : Bytes) (now : ℕ) (w : World) → (check_login_lockout key now w).1.db ≡ w.db
unfolding ◌>>=◌ check_login_lockout
lockout_readonly key now w = ground arith

module _ (c : Crypto) (ties : Bytes → Bytes → Bool) (o : Moment → Db → Db) (presented : Bytes)
    (now : ℕ) where
  checked_claims :
      (w : World) (x : IssuedSession)
      → (issue_refreshed_tokens c ties o presented now w).0 ≡ ok x
      → (claims : SessionClaims) × (validate_session_refresh_token c w.clock presented ≡ ok claims)
        × (w' : World) × (w'.db ≡ o before_lookup w.db)
        × (r : Result (Option User)) × ((r ≡ ok (find_user claims.user_id (o before_lookup w.db)))
            ⊎ ((e : Error) × (r ≡ err e)))
        × ((reissue c ties o
              (refresh_lock_key claims.user_id)
              presented
              now
              (agreed_user claims r)
              w').0
            ≡ ok x)
  unfolding ◌>>=◌ issue_refreshed_tokens refuse_if
  checked_claims w x h = elim (Result-cases (validate_session_refresh_token c w.clock presented)) [
    | inr (y, e) ↦ absurd (ground (arith, e, h))
    | inl (claims, e) ↦
        let key = refresh_lock_key claims.user_id in
        let w0 = (check_login_lockout key now w).1 in
        let w1 = record w0 { db = o before_lookup w0.db } in
        let same = ap (o before_lookup) (lockout_readonly key now w) in
        elim (Result-cases (check_login_lockout key now w).0) [
          | inr (y, e') ↦ absurd (ground (arith, e, e', h))
          | inl (lock, e') ↦ elim (Bool-cases (w1.fails w1.calls)) [
            | inl t ↦ (
              claims,
              e,
              ticked w1,
              same,
              err store_failure,
              inr (store_failure, refl),
              ground (arith, e, e', t, h),
            )
            | inr t ↦ (
              claims,
              e,
              ticked w1,
              same,
              ok (find_user claims.user_id w1.db),
              inl (ap (λ d. ok (find_user claims.user_id d)) same),
              ground (arith, e, e', t, h),
            )
          ]
        ]
  ]

ok_injective : {A : Type 0} {a b : A} → ◌≡◌ {A = Result A} (ok a) (ok b) → a ≡ b
ok_injective h = cc h

-- A refresh that returns tokens was given a valid refresh token of an existing user with the same
-- name and credential generation, whose session row is neither used, revoked nor expired; the new
-- tokens are issued to that user. The user is the one of the tables at the lookup and the row the one
-- of the tables at the rotation, whatever other requests commit before either.
pub issue_refreshed_ok :
    (c : Crypto) (ties : Bytes → Bytes → Bool) (o : Moment → Db → Db) (presented : Bytes) (now : ℕ)
    (w : World) (x : IssuedSession)
    → (issue_refreshed_tokens c ties o presented now w).0 ≡ ok x
    → (claims : SessionClaims) × (row : RefreshSession) × (validate_session_refresh_token c w.clock
          presented
        ≡ ok claims)
      × (find_user claims.user_id (o before_lookup w.db) ≡ some x.user)
      × (bytes_eq x.user.username claims.username ≡ true)
      × (int_eq (pos x.user.token_version) claims.token_version ≡ true)
      × (find_session (c.sha256_hex presented) (o before_rotation (o before_lookup w.db))
          ≡ some row)
      × (row.used_at ≡ none)
      × (row.revoked_at ≡ none)
      × (now < row.expires_at)
issue_refreshed_ok c ties o presented now w x h =
    let (claims, valid, w', same, r, shape, ran) = checked_claims c ties o presented now w x h in
    let (agreed, row, found, a, b, lt) =
      reissue_ok c ties o (refresh_lock_key claims.user_id) presented now (agreed_user claims r) w'
        x ran in
    let (there, name, version) = agreed_ok claims r x.user agreed in
    (
      claims,
      row,
      valid,
      elim shape [
        | inl e ↦ ok_injective (sym e ∙ there)
        | inr (y, e) ↦ absurd (ground (arith, e, there))
      ],
      name,
      version,
      subst (λ d. find_session (c.sha256_hex presented) (o before_rotation d) ≡ some row) same
          found,
      a,
      b,
      lt,
    )
