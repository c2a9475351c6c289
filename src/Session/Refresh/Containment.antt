-- ===== src/Session/Refresh/Containment.antt =====
-- What a replayed refresh token of service/session.go sets off.
use re_casa_os_user_service.Prelude.{
  ℕ, find_where, exists_where, ◌≡◌, update_where, Bytes, List, false, true, codes, some, ◌∷◌, arith,
  ◌+◌, ◌<◌, is_empty, suc, none, [], refl,
}
use re_casa_os_user_service.Model.{Db, User, RefreshSession}
use re_casa_os_user_service.Store.{World, ◌>>=◌, refuse_if, ok, err, refresh_session_reused}
use re_casa_os_user_service.Session.Access.{
  advance_version, advanced, has_id, bump_token_version, find_user,
}
use re_casa_os_user_service.Session.Refresh.{
  revoke_sessions, unrevoked_of, mark_revoked, rotate_refresh_session, rotate_body, contain_reuse,
  revoke_user_sessions, find_session, Moment, before_bump, before_revocation,
}

-- The tables after the family was revoked.
abbrev pub revoked : (Moment → Db → Db) → ℕ → ℕ → Db → Db
revoked o i now d =
    revoke_sessions (unrevoked_of i) now (codes "refresh token reuse detected")
      (o before_revocation d)

-- The tables after the containment: the family revoked and the credential generation advanced.
abbrev pub contained : (Moment → Db → Db) → ℕ → ℕ → ℕ → Db → Db
contained o i now at d = advance_version i at (o before_bump (revoked o i now d))

pub find_user-advance :
    (i at : ℕ) (xs : List User) (u : User)
    → find_where (has_id i) xs ≡ some u
    → find_where (has_id i) (update_where (has_id i) (advanced at) xs) ≡ some (advanced at u)
unfolding find_where update_where
find_user-advance i at [] u h = cc
find_user-advance i at (x ∷ xs) u h = ground (arith, find_user-advance i at xs u)

pub revoked_none_left :
    (i now : ℕ) (reason : Bytes) (xs : List RefreshSession)
    → exists_where (unrevoked_of i) (update_where (unrevoked_of i) (mark_revoked now reason) xs)
      ≡ false
unfolding exists_where update_where
revoked_none_left i now reason [] = refl
revoked_none_left i now reason (x ∷ xs) = ground (arith, revoked_none_left i now reason xs)

module _ (w : World) (never : (n : ℕ) → w.fails n ≡ false) (ready : w.ready ≡ true) where
  bump_succeeds :
      (i : ℕ) (d : Db) (n m : ℕ) (u : User)
      → 0 < i
      → find_user i d ≡ some u
      → let r = bump_token_version i (record w { db = d; calls = n; draws = m }) in
        (r.0 ≡ ok (u.token_version + 1)) × (r.1.db ≡ advance_version i w.clock d)
  unfolding ◌>>=◌ bump_token_version advance_version find_user refuse_if
  bump_succeeds i d n m u pos h = ground (
    arith,
    never n,
    never (suc n),
    never (suc (suc n)),
    never (suc (suc (suc n))),
    find_user-advance i w.clock d.users u h,
  )

  -- A replay by a known user, when no statement fails and the row is used but neither revoked nor
  -- expired, whatever other requests commit before and after the revocation: the rotation reports
  -- the reuse, right after the revocation no session of the user is unrevoked, and at the end the
  -- user's credential generation is one more than the other requests left it.
  pub reuse_contained :
      (o : Moment → Db → Db) (t rid rsha : Bytes) (issued expires now at : ℕ) (row : RefreshSession)
      (u : User)
      → is_empty t ≡ false
      → is_empty rid ≡ false
      → is_empty rsha ≡ false
      → find_session t w.db ≡ some row
      → row.revoked_at ≡ none
      → now < row.expires_at
      → row.used_at ≡ some at
      → 0 < row.user_id
      → find_user row.user_id (o before_bump (revoked o row.user_id now w.db)) ≡ some u
      → let r = rotate_refresh_session o t rid rsha issued expires now w in
        (r.0 ≡ err refresh_session_reused)
        × (r.1.db ≡ contained o row.user_id now w.clock w.db)
        × (exists_where (unrevoked_of row.user_id) (revoked o row.user_id now w.db).sessions
            ≡ false)
        × (find_user row.user_id r.1.db ≡ some (advanced w.clock u))
  unfolding ◌>>=◌ rotate_refresh_session rotate_body contain_reuse revoke_user_sessions
      revoke_sessions advance_version refuse_if find_user
  reuse_contained o t rid rsha issued expires now at row u e1 e2 e3 f rv ex us pos fu = ground (
    arith,
    e1,
    e2,
    e3,
    f,
    fu,
    never w.calls,
    never (suc w.calls),
    never (suc (suc w.calls)),
    bump_succeeds row.user_id (o before_bump (revoked o row.user_id now w.db))
        (suc (suc (suc w.calls))) w.draws u,
    find_user-advance row.user_id w.clock (o before_bump (revoked o row.user_id now w.db)).users u,
    revoked_none_left row.user_id now (codes "refresh token reuse detected")
        (o before_revocation w.db).sessions,
  )
