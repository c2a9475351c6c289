-- ===== src/Users/Deletion.antt =====
-- Deleting accounts in service/user.go.
use re_casa_os_user_service.Prelude.{
  ℕ, find_where, count_where, delete_where, List, ◌≡◌, some, ◌≤◌, ◌+◌, if◌then◌else◌, ◌∷◌, arith,
  [], none, refl, ◌≢◌, Option-cases, Option, inl, inr,
}
use re_casa_os_user_service.Model.{User}
use re_casa_os_user_service.Session.Access.{has_id, find_user}
use re_casa_os_user_service.Users.{
  is_admin, delete_user_by_id, delete_body, revoke_deleted, unless_last, remove_user,
}
use re_casa_os_user_service.Store.{◌>>=◌, refuse_if, World, ok, ticked}
use re_casa_os_user_service.Session.Refresh.{
  revoke_all_user_sessions, revoke_user_sessions, revoke_sessions,
}
use re_casa_os_user_service.Bootstrap.State.{with_immediate_transaction}

delete_none :
    (i : ℕ) (xs : List User) → count_where (has_id i) xs ≡ 0 → delete_where (has_id i) xs ≡ xs
unfolding count_where delete_where
delete_none i [] h = refl
delete_none i (x ∷ xs) h = ground (arith, delete_none i xs)

count_kept :
    (i : ℕ) (u : User) (xs : List User)
    → find_where (has_id i) xs ≡ some u
    → count_where (has_id i) xs ≤ 1
    → count_where is_admin xs
      ≡ count_where is_admin (delete_where (has_id i) xs) + (if is_admin u then 1 else 0)
unfolding find_where count_where delete_where
count_kept i u [] f c = cc
count_kept i u (x ∷ xs) f c = ground (arith, count_kept i u xs, delete_none i xs)

delete_none_left :
    (i : ℕ) (xs : List User) → find_where (has_id i) (delete_where (has_id i) xs) ≡ none
unfolding find_where delete_where
delete_none_left i [] = refl
delete_none_left i (x ∷ xs) = ground (arith, delete_none_left i xs)

delete_others :
    (i j : ℕ) (xs : List User)
    → i ≢ j
    → find_where (has_id j) (delete_where (has_id i) xs) ≡ find_where (has_id j) xs
unfolding find_where delete_where
delete_others i j [] h = refl
delete_others i j (x ∷ xs) h = ground (arith, delete_others i j xs h)

delete_body-admins :
    (i : ℕ) (w : World)
    → count_where (has_id i) w.db.users ≤ 1
    → 1 ≤ count_where is_admin w.db.users
    → 1 ≤ count_where is_admin (delete_body i w).1.db.users
unfolding ◌>>=◌ delete_body unless_last remove_user refuse_if find_user
delete_body-admins i w u h = elim (Option-cases (find_where (has_id i) w.db.users)) [
  | inl e ↦ ground (arith, e)
  | inr (row, e) ↦ ground (arith, e, count_kept i row w.db.users e u)
]

delete_body-ok :
    (i : ℕ) (w : World)
    → (delete_body i w).0 ≡ ok tt
    → (delete_body i w).1.db ≡ record w.db { users = delete_where (has_id i) w.db.users }
unfolding ◌>>=◌ delete_body unless_last remove_user refuse_if
delete_body-ok i w h = elim (Option-cases (find_user i w.db)) [
  | inl e ↦ absurd (ground (arith, e))
  | inr (row, e) ↦ ground (arith, e)
]

-- Whatever the call and its outcome: if there was an administrator, there still is one. The ids
-- are a primary key.
pub delete_keeps_admin :
    (i : ℕ) (number : Option ℕ) (w : World)
    → count_where (has_id i) w.db.users ≤ 1
    → 1 ≤ count_where is_admin w.db.users
    → 1 ≤ count_where is_admin (delete_user_by_id i number w).1.db.users
unfolding ◌>>=◌ delete_user_by_id with_immediate_transaction revoke_deleted revoke_all_user_sessions
    revoke_user_sessions revoke_sessions
delete_keeps_admin i number w u h = ground (arith, delete_body-admins i (ticked (ticked w)) u h)

-- A deletion that succeeds removes the user with that id and leaves every user with another id as
-- it was.
pub delete_user_ok :
    (i j : ℕ) (number : Option ℕ) (w : World)
    → i ≢ j
    → (delete_user_by_id i number w).0 ≡ ok tt
    → (find_user i (delete_user_by_id i number w).1.db ≡ none)
      × (find_user j (delete_user_by_id i number w).1.db ≡ find_user j w.db)
unfolding ◌>>=◌ delete_user_by_id with_immediate_transaction revoke_deleted revoke_all_user_sessions
    revoke_user_sessions revoke_sessions find_user
delete_user_ok i j number w ne h = (
  ground (arith, delete_body-ok i (ticked (ticked w)), delete_none_left i w.db.users),
  ground (arith, delete_body-ok i (ticked (ticked w)), delete_others i j w.db.users ne),
)
