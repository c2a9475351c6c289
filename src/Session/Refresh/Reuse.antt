-- ===== src/Session/Refresh/Reuse.antt =====
-- A refresh token that was consumed once stays consumed, whatever else happens.
use re_casa_os_user_service.Prelude.{
  ◌≡◌, Bytes, Bool, true, false, not, ◌&&◌, some, List, [], ◌∷◌, is_some, update_where,
  delete_where, find_where, exists_where, arith, ℕ, ◌≢◌, bytes_eq_iff, count_where, bytes_eq, ◌≤◌,
  none, bytes_eq_refl, refl,
}
use re_casa_os_user_service.Model.{Db, RefreshSession, RevokedAccessToken}
use re_casa_os_user_service.Session.Refresh.{
  has_token, consume, add_session, revoke_sessions, bump_token_version, rotate_body, mark_revoked,
  unused, mark_used, contain_reuse, rotate_refresh_session, revoke_user_refresh_session,
  logout_all_sessions, revoke_refresh_session, create_refresh_session, revoke_all_user_sessions,
  logout_session, clashes, finish_rotation, revoke_user_sessions, Moment,
}
use re_casa_os_user_service.Store.Keeps.{
  keeps_rules, Keeps, Keeps-statement, Keeps-insert, Keeps-exec, Keeps-pure, Keeps-raise,
}
use re_casa_os_user_service.Session.Access.{
  advance_version, bump_token_version, revoke_access_token, add_revoked,
}
use re_casa_os_user_service.Store.{
  exec, insert, statement, Result, ok, err, session_reuse, interleave,
}

-- The row holds the token and may still be consumed.
abbrev pub is_live_row : Bytes → RefreshSession → Bool
is_live_row t s = has_token t s && not (is_some s.used_at)

-- No row that holds the token may still be consumed.
abbrev pub IsSpent : Bytes → Db → Type 0
IsSpent t d = exists_where (is_live_row t) d.sessions ≡ false

pub find_spent :
    (t : Bytes) (xs : List RefreshSession) (row : RefreshSession)
    → exists_where (is_live_row t) xs ≡ false
    → find_where (has_token t) xs ≡ some row
    → is_some row.used_at ≡ true
unfolding exists_where find_where
find_spent t [] row h e = cc
find_spent t (x ∷ xs) row h e = ground (arith, find_spent t xs row)

update_spent :
    (t : Bytes) (p : RefreshSession → Bool) (f : RefreshSession → RefreshSession)
    → ((s : RefreshSession) → is_live_row t s ≡ false → is_live_row t (f s) ≡ false)
    → (xs : List RefreshSession) → exists_where (is_live_row t) xs ≡ false
    → exists_where (is_live_row t) (update_where p f xs) ≡ false
unfolding exists_where update_where
update_spent t p f k [] h = h
update_spent t p f k (x ∷ xs) h = ground (arith, k x, update_spent t p f k xs)

pub delete_spent :
    (t : Bytes) (p : RefreshSession → Bool) (xs : List RefreshSession)
    → exists_where (is_live_row t) xs ≡ false
    → exists_where (is_live_row t) (delete_where p xs) ≡ false
unfolding exists_where delete_where
delete_spent t p [] h = h
delete_spent t p (x ∷ xs) h = ground (arith, delete_spent t p xs)

-- What the other requests of one call may do to the sessions: no digest that is spent is stored anew.
abbrev pub Respects : Bytes → (Moment → Db → Db) → Type 0
Respects t o = (m : Moment) (d : Db) → IsSpent t d → IsSpent t (o m d)

module _ (t : Bytes) where
  consume-IsSpent :
      (i : Bytes) (at : ℕ) (replacement : Bytes)
      → Keeps (IsSpent t) (statement (consume i at replacement))
  unfolding consume
  consume-IsSpent i at replacement =
      Keeps-statement _ λ d h.
        update_spent t (unused i) (mark_used at replacement) (λ s _. ground arith) d.sessions h

  add-IsSpent :
      (new : RefreshSession) → new.token_sha256 ≢ t → Keeps (IsSpent t) (insert (add_session new))
  unfolding add_session exists_where
  add-IsSpent new ne = Keeps-insert _ λ d d' h e. ground (arith, bytes_eq_iff new.token_sha256 t)

  revoke-IsSpent :
      (p : RefreshSession → Bool) (at : ℕ) (reason : Bytes)
      → Keeps (IsSpent t) (exec (revoke_sessions p at reason))
  unfolding revoke_sessions
  revoke-IsSpent p at reason =
      Keeps-exec _ λ d h. update_spent t p (mark_revoked at reason) (λ s k. k) d.sessions h

  advance-IsSpent : (i at : ℕ) → Keeps (IsSpent t) (exec (advance_version i at))
  unfolding advance_version
  advance-IsSpent i at = Keeps-exec _ λ d h. h

  ruleset spent_rules = (keeps_rules, consume-IsSpent, add-IsSpent, revoke-IsSpent, advance-IsSpent)

  bump_token-IsSpent : (i : ℕ) → Keeps (IsSpent t) (bump_token_version i)
  unfolding bump_token_version
  bump_token-IsSpent i = search spent_rules depth 9

  rotate_body-IsSpent :
      (presented rid rsha : Bytes) (issued expires now : ℕ)
      → rsha ≢ t
      → Keeps (IsSpent t) (rotate_body presented rid rsha issued expires now)
  unfolding rotate_body
  rotate_body-IsSpent presented rid rsha issued expires now ne = search spent_rules depth 12

  interleave-IsSpent :
      (o : Moment → Db → Db) → Respects t o → (m : Moment) → Keeps (IsSpent t) (interleave (o m))
  unfolding interleave
  interleave-IsSpent o k m = record { at = λ w h. k m w.db h }

  contain-IsSpent :
      (o : Moment → Db → Db)
      → Respects t o
      → (i now : ℕ) → Keeps (IsSpent t) (contain_reuse o i now)
  unfolding contain_reuse revoke_user_sessions
  contain-IsSpent o k i now =
      search (spent_rules, bump_token-IsSpent, interleave-IsSpent o k) depth 14

  finish-IsSpent :
      (o : Moment → Db → Db)
      → Respects t o
      → (now : ℕ) (r : Result RefreshSession) → Keeps (IsSpent t) (finish_rotation o now r)
  finish-IsSpent o k now (ok s) = Keeps-pure s
  finish-IsSpent o k now (err (session_reuse i)) = contain-IsSpent o k i now
  finish-IsSpent o k now (err e) = Keeps-raise e

  pub rotate-IsSpent :
      (o : Moment → Db → Db)
      → Respects t o
      → (presented rid rsha : Bytes) (issued expires now : ℕ) → rsha ≢ t
      → Keeps (IsSpent t) (rotate_refresh_session o presented rid rsha issued expires now)
  unfolding rotate_refresh_session
  rotate-IsSpent o k presented rid rsha issued expires now ne =
      search (keeps_rules, finish-IsSpent o k, rotate_body-IsSpent) depth 12

  pub create-IsSpent :
      (i : ℕ) (sha : Bytes) (issued expires : ℕ) (sid : Bytes)
      → sha ≢ t
      → Keeps (IsSpent t) (create_refresh_session i sha issued expires sid)
  unfolding create_refresh_session
  create-IsSpent i sha issued expires sid ne = search spent_rules depth 9

  pub revoke_refresh-IsSpent :
      (sid reason : Bytes) → Keeps (IsSpent t) (revoke_refresh_session sid reason)
  unfolding revoke_refresh_session
  revoke_refresh-IsSpent sid reason = search spent_rules depth 9

  revoke_one-IsSpent :
      (i : ℕ) (sid reason : Bytes) → Keeps (IsSpent t) (revoke_user_refresh_session i sid reason)
  unfolding revoke_user_refresh_session
  revoke_one-IsSpent i sid reason = search spent_rules depth 9

  pub revoke_all-IsSpent :
      (i : ℕ) (reason : Bytes) → Keeps (IsSpent t) (revoke_all_user_sessions i reason)
  unfolding revoke_all_user_sessions revoke_user_sessions
  revoke_all-IsSpent i reason = search spent_rules depth 9

  revoked_token-IsSpent : (r : RevokedAccessToken) → Keeps (IsSpent t) (exec (add_revoked r))
  unfolding add_revoked
  revoked_token-IsSpent r = Keeps-exec _ λ d h. ground (arith, h)

  revoke_access-IsSpent : (j : Bytes) (i e : ℕ) → Keeps (IsSpent t) (revoke_access_token j i e)
  unfolding revoke_access_token
  revoke_access-IsSpent j i e = search (keeps_rules, revoked_token-IsSpent) depth 9

  pub logout-IsSpent : (i : ℕ) (sid : Bytes) (e : ℕ) → Keeps (IsSpent t) (logout_session i sid e)
  unfolding logout_session
  logout-IsSpent i sid e = search (keeps_rules, revoke_one-IsSpent, revoke_access-IsSpent) depth 12

  pub logout_all-IsSpent : (i : ℕ) → Keeps (IsSpent t) (logout_all_sessions i)
  unfolding logout_all_sessions
  logout_all-IsSpent i = search (keeps_rules, revoke_all-IsSpent, bump_token-IsSpent) depth 12

-- The unique index on token_sha256.
abbrev pub IsUnique : Bytes → Db → Type 0
IsUnique t d = count_where (has_token t) d.sessions ≤ 1

no_token :
    (t : Bytes) (p : RefreshSession → Bool) (at : ℕ) (rid : Bytes) (xs : List RefreshSession)
    → count_where (has_token t) xs ≡ 0
    → exists_where (is_live_row t) (update_where p (mark_used at rid) xs) ≡ false
unfolding exists_where update_where count_where
no_token t p at rid [] h = refl
no_token t p at rid (x ∷ xs) h = ground (arith, no_token t p at rid xs)

pub consumed_spent :
    (t : Bytes) (at : ℕ) (rid : Bytes) (row : RefreshSession) (xs : List RefreshSession)
    → find_where (has_token t) xs ≡ some row
    → row.used_at ≡ none
    → count_where (has_token t) xs ≤ 1
    → exists_where (is_live_row t) (update_where (unused row.id) (mark_used at rid) xs) ≡ false
unfolding exists_where update_where count_where find_where
consumed_spent t at rid row [] f u c = cc
consumed_spent t at rid row (x ∷ xs) f u c = ground (
  arith,
  bytes_eq_refl row.id,
  no_token t (unused row.id) at rid xs,
  consumed_spent t at rid row xs,
)

pub clash_token :
    (t : Bytes) (p : RefreshSession → Bool) (at : ℕ) (rid : Bytes) (new row : RefreshSession)
    (xs : List RefreshSession)
    → find_where (has_token t) xs ≡ some row
    → exists_where (clashes new) (update_where p (mark_used at rid) xs) ≡ false
    → bytes_eq new.token_sha256 t ≡ false
unfolding exists_where update_where find_where
clash_token t p at rid new row [] f c = cc
clash_token t p at rid new row (x ∷ xs) f c = ground (
  arith,
  clash_token t p at rid new row xs,
  bytes_eq_iff x.token_sha256 t,
  bytes_eq_iff new.token_sha256 t,
  bytes_eq_iff x.token_sha256 new.token_sha256,
)
