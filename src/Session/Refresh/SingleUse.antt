-- ===== src/Session/Refresh/SingleUse.antt =====
-- A refresh token of service/session.go is good for one rotation.
use re_casa_os_user_service.Session.Refresh.{
  rotate_body, consume, find_session, add_session, has_token, unused, fresh_session,
  rotate_refresh_session, Moment,
}
use re_casa_os_user_service.Store.{◌>>=◌, World, ok, exec, ticked}
use re_casa_os_user_service.Prelude.{
  Bytes, exists_where, ℕ, ◌≡◌, some, ◌≢◌, Option-cases, arith, find_where, inl, inr, Bool, List,
  All, subst, sym,
}
use re_casa_os_user_service.Model.{RefreshSession, Db}
use re_casa_os_user_service.Session.Refresh.Reuse.{
  IsSpent, IsUnique, consumed_spent, clash_token, find_spent, create-IsSpent, delete_spent,
  rotate-IsSpent, revoke_refresh-IsSpent, revoke_all-IsSpent, logout-IsSpent, logout_all-IsSpent,
}
use re_casa_os_user_service.Session.Runs.{
  step, Op, Avoids, creates, rotates, revokes, revokes_user, logs_out, logs_out_all, prunes, passes,
  run, run-keeps,
}
use re_casa_os_user_service.Session.Prune.{
  prune_attempts, prune_auth_state, cap_revoked, prune_all, prune_events, prune_revoked,
  prune_sessions, cap_sessions,
}
use re_casa_os_user_service.Store.Keeps.{keeps_rules, Keeps, Keeps-exec}
use re_casa_os_user_service.Session.Refresh.Rotation.{body_of_rotate, body_finds}

rotate_body_spends :
    (presented rid rsha : Bytes) (issued expires now : ℕ) (w : World) (cur row : RefreshSession)
    → find_session presented w.db ≡ some row
    → IsUnique presented w.db
    → (rotate_body presented rid rsha issued expires now w).0 ≡ ok cur
    → IsSpent presented (rotate_body presented rid rsha issued expires now w).1.db
unfolding ◌>>=◌ rotate_body consume add_session find_session exists_where
rotate_body_spends presented rid rsha issued expires now w cur row f u h = ground (
  arith,
  f,
  consumed_spent presented now rid row w.db.sessions,
  clash_token presented (unused row.id) now rid (fresh_session rid row.user_id rsha issued expires)
      row w.db.sessions,
)

spent_body_refuses :
    (t rid rsha : Bytes) (issued expires now : ℕ) (w : World) (cur : RefreshSession)
    → IsSpent t w.db
    → (rotate_body t rid rsha issued expires now w).0 ≢ ok cur
unfolding ◌>>=◌ rotate_body find_session
spent_body_refuses t rid rsha issued expires now w cur s =
    elim (Option-cases (find_where (has_token t) w.db.sessions)) [
      | inl e ↦ ground (arith, e)
      | inr (row, e) ↦ ground (arith, e, find_spent t w.db.sessions row s e)
    ]

module _ (t : Bytes) where
  prune_revoked-IsSpent : (now : ℕ) → Keeps (IsSpent t) (exec (prune_revoked now))
  unfolding prune_revoked
  prune_revoked-IsSpent now = Keeps-exec _ λ d h. h

  prune_sessions-IsSpent : (now : ℕ) → Keeps (IsSpent t) (exec (prune_sessions now))
  unfolding prune_sessions
  prune_sessions-IsSpent now = Keeps-exec _ λ d h. delete_spent t _ d.sessions h

  prune_attempts-IsSpent : (now : ℕ) → Keeps (IsSpent t) (exec (prune_attempts now))
  unfolding prune_attempts
  prune_attempts-IsSpent now = Keeps-exec _ λ d h. h

  prune_events-IsSpent : (now : ℕ) → Keeps (IsSpent t) (exec (prune_events now))
  unfolding prune_events
  prune_events-IsSpent now = Keeps-exec _ λ d h. h

  cap_sessions-IsSpent : Keeps (IsSpent t) (exec cap_sessions)
  unfolding cap_sessions
  cap_sessions-IsSpent = Keeps-exec _ λ d h. delete_spent t _ d.sessions h

  cap_revoked-IsSpent : (ties : Bytes → Bytes → Bool) → Keeps (IsSpent t) (exec (cap_revoked ties))
  unfolding cap_revoked
  cap_revoked-IsSpent ties = Keeps-exec _ λ d h. h

  ruleset prune_rules = (
    keeps_rules, prune_revoked-IsSpent, prune_sessions-IsSpent, prune_attempts-IsSpent,
    prune_events-IsSpent, cap_sessions-IsSpent, cap_revoked-IsSpent,
  )

  prunes_all : (ties : Bytes → Bytes → Bool) (now : ℕ) → Keeps (IsSpent t) (prune_all ties now)
  unfolding prune_all
  prunes_all ties now = search prune_rules depth 14

  prune-IsSpent :
      (ties : Bytes → Bytes → Bool) (now : ℕ) → Keeps (IsSpent t) (prune_auth_state ties now)
  unfolding prune_auth_state
  prune-IsSpent ties now = search (keeps_rules, prunes_all)

  step-IsSpent : (o : Op) (w : World) → Avoids t o → IsSpent t w.db → IsSpent t (step o w).db
  unfolding step
  step-IsSpent (creates i sha issued expires sid) w ne h =
      (create-IsSpent t i sha issued expires sid ne).at w h
  step-IsSpent (rotates o p rid rsha issued expires now) w (ne, k) h =
      (rotate-IsSpent t o k p rid rsha issued expires now ne).at w h
  step-IsSpent (revokes sid reason) w ne h = (revoke_refresh-IsSpent t sid reason).at w h
  step-IsSpent (revokes_user i reason) w ne h = (revoke_all-IsSpent t i reason).at w h
  step-IsSpent (logs_out i sid e) w ne h = (logout-IsSpent t i sid e).at w h
  step-IsSpent (logs_out_all i) w ne h = (logout_all-IsSpent t i).at w h
  step-IsSpent (prunes ties now) w ne h = (prune-IsSpent ties now).at w h
  step-IsSpent (passes n) w ne h = h

-- After a successful rotation, whatever calls follow in whatever order and with whatever failures,
-- as long as neither they nor what others commit inside them stores a new session under the digest
-- of the same token, the presented token never rotates again. The unique index on the digest is the
-- hypothesis on the tables before.
pub single_use :
    (o o' : Moment → Db → Db) (t rid rsha rid' rsha' : Bytes)
    (issued expires now issued' expires' now' : ℕ) (w : World) (cur cur' : RefreshSession)
    (os : List Op)
    → IsUnique t w.db
    → (rotate_refresh_session o t rid rsha issued expires now w).0 ≡ ok cur
    → All (Avoids t) os
    → (rotate_refresh_session o' t rid' rsha' issued' expires' now'
        (run os (rotate_refresh_session o t rid rsha issued expires now w).1)).0
      ≢ ok cur'
single_use o o' t rid rsha rid' rsha' issued expires now issued' expires' now' w cur cur' os u h
      avoid again =
    let first = body_of_rotate o t rid rsha issued expires now w cur h in
    let (row, found, _) = body_finds t rid rsha issued expires now (ticked w) cur first.0 in
    let spent =
      rotate_body_spends t rid rsha issued expires now (ticked w) cur row found u first.0 in
    let later =
      run-keeps (IsSpent t) (Avoids t) (step-IsSpent t) os _ avoid
        (subst (IsSpent t) (sym first.1) spent) in
    spent_body_refuses t rid' rsha' issued' expires' now' _ cur' later
      (body_of_rotate o' t rid' rsha' issued' expires' now' _ cur' again).0
