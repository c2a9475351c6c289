-- ===== src/Handlers/Sessions/Access.antt =====
-- Who reads which credential events, and what a logout through route/v1/user.go ends.
use re_casa_os_user_service.Prelude.{
  ℕ, Bytes, Bool, true, false, Option, some, ◌≡◌, refl, arith, bytes_eq, ap, ◌≢◌, ◌∙◌, Option-cases,
  inl, List, inr, exists_where, Bool-cases, codes, find_where, subst, sym,
}
use re_casa_os_user_service.Store.{◌>>=◌, World, ok, Result-cases, Result, err}
use re_casa_os_user_service.Handlers.Sessions.{
  logged_out, post_user_logout_all, get_credential_events, post_user_logout, events_for,
  events_of_target, target, expiry_of,
}
use re_casa_os_user_service.Users.Lookup.{get_user_info_by_id, zero_user, first_user, selected}
use re_casa_os_user_service.Model.{User, EventType, logout_all, logout, Db}
use re_casa_os_user_service.Auth.Middleware.{AuthenticatedSession, authenticate}
use re_casa_os_user_service.Session.Access.{find_user, advanced, has_id, has_jti}
use re_casa_os_user_service.Session.Events.{log_credential_event, stamped, add_event}
use re_casa_os_user_service.Users.{is_admin}
use re_casa_os_user_service.Handlers.{Reply, success}
use re_casa_os_user_service.Tokens.{Crypto}
use re_casa_os_user_service.Session.Refresh.{unrevoked_of, logout_session, logout_all_sessions}
use re_casa_os_user_service.Session.Refresh.Everywhere.{logout_all_ok}
use re_casa_os_user_service.Auth.Middleware.Logout.{logout_denies, denied_not_admitted}

not_zero : (u : User) → zero_user ≡ u → is_admin u ≢ true
unfolding bytes_eq
not_zero u e a = ground (arith, e, a)

same_role : (u row : User) → selected row ≡ u → is_admin u ≡ true → is_admin row ≡ true
same_role u row e a = ap is_admin e ∙ a

info_of_row :
    (i : ℕ) (w : World) (u : User)
    → (get_user_info_by_id i w).0 ≡ ok u
    → is_admin u ≡ true
    → (row : User) × (find_user i w.db ≡ some row) × (is_admin row ≡ true)
unfolding ◌>>=◌ get_user_info_by_id first_user
info_of_row i w u h a = elim (Option-cases (find_user i w.db)) [
  | inl e ↦ absurd (not_zero u (ground (arith, e, h)) a)
  | inr (row, e) ↦ elim (Bool-cases (w.fails w.calls)) [
    | inl t ↦ absurd (not_zero u (ground (arith, t, h)) a)
    | inr t ↦ (row, e, same_role u row (ground (arith, e, t, h)) a)
  ]
]

-- Reading the events of another user, or of all users, succeeds only for a session whose user exists
-- in the table with the role of an administrator.
pub events_need_admin :
    (s : AuthenticatedSession) (t : ℕ) (w : World) (rep : Reply)
    → t ≢ s.user_id
    → (get_credential_events (some s) (target t) w).0 ≡ ok rep
    → rep.status ≡ success
    → (row : User) × (find_user s.user_id w.db ≡ some row) × (is_admin row ≡ true)
unfolding ◌>>=◌ get_credential_events events_for events_of_target
events_need_admin s t w rep ne h ok_status =
    elim (Result-cases (get_user_info_by_id s.user_id w).0) [
      | inr (x, e) ↦ absurd (ground (arith, ne, e, h))
      | inl (u, e) ↦ elim (Bool-cases (is_admin u)) [
        | inl a ↦ info_of_row s.user_id w u e a
        | inr a ↦ absurd (ground (arith, ne, e, a, h, ok_status))
      ]
    ]

logged_out_ok :
    (i : ℕ) (t : EventType) (source : Bytes) (r : Result (Unit {0})) (w : World) (rep : Reply)
    → (logged_out i t source r w).0 ≡ ok rep
    → rep.status ≡ success
    → (r ≡ ok tt)
      × ((logged_out i t source r w).1.db.revoked ≡ w.db.revoked)
      × ((logged_out i t source r w).1.db.sessions ≡ w.db.sessions)
      × ((logged_out i t source r w).1.db.users ≡ w.db.users)
unfolding ◌>>=◌ logged_out log_credential_event stamped add_event
logged_out_ok i t source (err e) w rep h s = absurd (ground (arith, h, s))
logged_out_ok i t source (ok u) w rep h s =
    (refl, ground (arith, h), ground (arith, h), ground (arith, h))

-- After a logout request answered with success, no request is admitted with the token id of the
-- session that sent it if the tables at the reading of the denylist are exactly those that the handler
-- left.
pub post_user_logout_ends :
    (s : AuthenticatedSession) (w w' : World) (rep : Reply) (c : Crypto) (others : Db → Db)
    (has_sessions : Bool) (request : ℕ) (values : Option (List Bytes)) (s' : AuthenticatedSession)
    → (post_user_logout (some s) w).0 ≡ ok rep
    → rep.status ≡ success
    → others w'.db ≡ (post_user_logout (some s) w).1.db
    → (authenticate c others has_sessions request values w').0 ≡ ok s'
    → s'.token_id ≢ s.token_id
unfolding ◌>>=◌ post_user_logout
post_user_logout_ends s w w' rep c others has_sessions request values s' h st same admitted_as =
    let out = logout_session s.user_id s.token_id (expiry_of s) w in
    let (ok_out, kept, x, y) =
      logged_out_ok s.user_id logout (codes "logout") out.0 out.1 rep h st in
    let on_list = logout_denies s.user_id s.token_id (expiry_of s) w ok_out in
    denied_not_admitted s.token_id w' c others has_sessions request values s'
      (subst (λ rs. exists_where (has_jti s.token_id) rs ≡ true)
        (sym (ap (λ (d : Db). d.revoked) same ∙ kept)) on_list)
      admitted_as

-- After a request to log out everywhere answered with success, the user's credential generation is
-- one higher and none of the user's refresh sessions is unrevoked.
pub post_user_logout_all_ends :
    (s : AuthenticatedSession) (u : User) (w : World) (rep : Reply)
    → find_user s.user_id w.db ≡ some u
    → (post_user_logout_all (some s) w).0 ≡ ok rep
    → rep.status ≡ success
    → (find_user s.user_id (post_user_logout_all (some s) w).1.db ≡ some (advanced w.clock u))
      × (exists_where (unrevoked_of s.user_id) (post_user_logout_all (some s) w).1.db.sessions
          ≡ false)
unfolding ◌>>=◌ post_user_logout_all find_user
post_user_logout_all_ends s u w rep f h st =
    let out = logout_all_sessions s.user_id w in
    let (ok_out, x, kept, users) =
      logged_out_ok s.user_id logout_all (codes "logout-all") out.0 out.1 rep h st in
    let (gen, ended) = logout_all_ok s.user_id w u f ok_out in
    (
      ap (λ us. find_where (has_id s.user_id) us) users ∙ gen,
      ap (λ ss. exists_where (unrevoked_of s.user_id) ss) kept ∙ ended,
    )
