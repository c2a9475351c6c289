-- ===== src/Users/Lookup.antt =====
-- The lookups of service/user.go, which drop every error and then return Go's zero value.
use re_casa_os_user_service.Prelude.{
  ℕ, Bytes, Bool, Option, none, some, [], ◌≡◌, if◌then◌else◌, Option-cases, arith, inl, Bool-cases,
  inr, refl,
}
use re_casa_os_user_service.Store.{
  M, ◌>>=◌, World, Result, ok, attempt, err, query, store_failure, pure,
}
use re_casa_os_user_service.Model.{User, Db, State}
use re_casa_os_user_service.Session.Access.{find_user}
use re_casa_os_user_service.Users.{find_by_username}

abbrev pub zero_user : User
zero_user = record {
  id = 0;
  username = [];
  password = [];
  role = [];
  email = [];
  nickname = [];
  avatar = [];
  description = [];
  token_version = 0;
  created_at = 0;
  updated_at = 0;
}

-- SELECT username, id, role, nickname, description, avatar, email
abbrev pub selected : User → User
selected u = record u { password = []; token_version = 0; created_at = 0; updated_at = 0 }

abbrev pub found_or_zero : (User → User) → Result (Option User) → User
found_or_zero f (ok (some u)) = f u
found_or_zero f (ok none) = zero_user
found_or_zero f (err e) = zero_user

unfoldable pub first_user : (User → User) → (Db → Option User) → M User
first_user f find = do found ← attempt (query find); pure (found_or_zero f found)

unfoldable pub get_user_all_info_by_id : ℕ → M User
get_user_all_info_by_id i = first_user (λ u. u) (find_user i)

unfoldable pub get_user_all_info_by_name : Bytes → M User
get_user_all_info_by_name name = first_user (λ u. u) (find_by_username name)

unfoldable pub get_user_info_by_id : ℕ → M User
get_user_info_by_id i = first_user selected (find_user i)

unfoldable pub get_user_info_by_user_name : Bytes → M User
get_user_info_by_user_name name = first_user selected (find_by_username name)

-- `cancelled` is the state of the context.
unfoldable pub get_initialization_state : Bool → M State
get_initialization_state cancelled w = if cancelled then (err store_failure, w) else (ok w.state, w)

pub without_password :
    (find : Db → Option User) (w : World)
    → (u : User) × ((first_user selected find w).0 ≡ ok u) × (u.password ≡ [])
unfolding ◌>>=◌ first_user
without_password find w = elim (Option-cases (find w.db)) [
  | inl e ↦ elim (Bool-cases (w.fails w.calls)) [
    | inl t ↦ (zero_user, ground (arith, t), refl)
    | inr t ↦ (zero_user, ground (arith, e, t), refl)
  ]
  | inr (u, e) ↦ elim (Bool-cases (w.fails w.calls)) [
    | inl t ↦ (zero_user, ground (arith, t), refl)
    | inr t ↦ (selected u, ground (arith, e, t), refl)
  ]
]

info_readonly : (find : Db → Option User) (w : World) → (first_user selected find w).1.db ≡ w.db
unfolding ◌>>=◌ first_user
info_readonly find w = ground arith

-- Whatever is found and whatever fails, the public lookups return a user without a password hash,
-- and they change no table.
pub info_without_password :
    (i : ℕ) (name : Bytes) (w : World)
    → ((u : User) × ((get_user_info_by_id i w).0 ≡ ok u) × (u.password ≡ []))
      × ((get_user_info_by_id i w).1.db ≡ w.db)
      × ((u : User) × ((get_user_info_by_user_name name w).0 ≡ ok u) × (u.password ≡ []))
      × ((get_user_info_by_user_name name w).1.db ≡ w.db)
unfolding ◌>>=◌ get_user_info_by_id get_user_info_by_user_name first_user
info_without_password i name w = (
  without_password (find_user i) w,
  info_readonly (find_user i) w,
  without_password (find_by_username name) w,
  info_readonly (find_by_username name) w,
)
