-- ===== src/Handlers/Hidden/All.antt =====
-- The handlers of route/v1/user.go always reply, and never with a password hash.
use re_casa_os_user_service.Prelude.{ℕ, Bytes, Bool, Option, none, some, ◌≡◌, refl, arith, [], ◌∷◌}
use re_casa_os_user_service.Store.{M, Error, Result, World, ok, err}
use re_casa_os_user_service.Handlers.Login.{post_user_login, LoginRequest}
use re_casa_os_user_service.Password.{Kdf}
use re_casa_os_user_service.Handlers.Profile.{
  put_user_info, get_user_info, save_profile, put_user_nick, put_user_desc,
  get_user_info_by_username, name_owner, put_field, put_profile, UserProfileUpdate, updated,
}
use re_casa_os_user_service.Users.{update_user}
use re_casa_os_user_service.Handlers.Password.{put_user_password, change_reply, change_error}
use re_casa_os_user_service.Handlers.{password_in, Reply}
use re_casa_os_user_service.Model.{User, Db}
use re_casa_os_user_service.Store.Returns.{
  Returns, Returns-bind, Returns-time_now, Returns-pure, Returns-if, Returns-attempt,
  Returns-ignore,
}
use re_casa_os_user_service.Handlers.Hidden.{
  IsPublic, Hides, by_id-IsPublic, by_name-IsPublic, login-Hides,
}
use re_casa_os_user_service.Tokens.{Crypto}
use re_casa_os_user_service.Session.Issue.{LoginMoment}

update-Returns : (m : User) → Returns (λ u. Unit {0}) (update_user m)
unfolding update_user
update-Returns m = Returns-bind _ _ _ _ Returns-time_now (λ at _. Returns-ignore _)

save-Hides : (i : ℕ) (user changed : User) → Returns Hides (save_profile i user changed)
unfolding save_profile password_in
save-Hides i user changed =
    Returns-bind _ _ _ _ (update-Returns changed)
      λ x _. Returns-bind _ _ _ _ (by_id-IsPublic i) (λ u p. Returns-pure _ _ (ground arith))

owner-Returns : (name : Bytes) → Returns IsPublic (name_owner name)
unfolding name_owner
owner-Returns [] = Returns-pure _ _ refl
owner-Returns (b ∷ bs) = by_name-IsPublic (b ∷ bs)

profile-Hides : (i : ℕ) (p : UserProfileUpdate) (user : User) → Returns Hides (put_profile i p user)
unfolding put_profile password_in
profile-Hides i p user =
    Returns-bind _ _ _ _ (owner-Returns p.username)
      λ o _. Returns-if _ _ _ _ (Returns-pure _ _ refl) (save-Hides i user (updated p user))

info-Hides : (i : ℕ) (p : Option UserProfileUpdate) → Returns Hides (put_user_info i p)
unfolding put_user_info password_in
info-Hides i none = Returns-pure _ _ refl
info-Hides i (some p) =
    Returns-bind _ _ _ _ (by_id-IsPublic i)
      λ u _. Returns-if _ _ _ _ (Returns-pure _ _ refl) (profile-Hides i p u)

field-Hides :
    (change : User → User) (i : ℕ)
    → ((u : User) → IsPublic u → IsPublic (change u))
    → Returns Hides (put_field change i)
unfolding put_field password_in
field-Hides change i keep = Returns-bind _ _ _ _ (by_id-IsPublic i) λ u p.
    Returns-if _ _ _ _ (Returns-pure _ _ refl)
      (Returns-bind _ _ _ _ (update-Returns _) (λ x _. Returns-pure _ _ (keep u p)))

nick-Hides : (i : ℕ) (value : Bytes) → Returns Hides (put_user_nick i value)
unfolding put_user_nick password_in
nick-Hides i value = Returns-if _ _ _ _ (Returns-pure _ _ refl) (field-Hides _ i (λ u p. p))

desc-Hides : (i : ℕ) (value : Bytes) → Returns Hides (put_user_desc i value)
unfolding put_user_desc password_in
desc-Hides i value = Returns-if _ _ _ _ (Returns-pure _ _ refl) (field-Hides _ i (λ u p. p))

get-Hides : (i : ℕ) → Returns Hides (get_user_info i)
unfolding get_user_info password_in
get-Hides i = Returns-bind _ _ _ _ (by_id-IsPublic i) (λ u p. Returns-pure _ _ p)

name-Hides : (name : Bytes) → Returns Hides (get_user_info_by_username name)
unfolding get_user_info_by_username password_in
name-Hides [] = Returns-pure _ _ refl
name-Hides (b ∷ bs) =
    Returns-bind _ _ _ _ (by_name-IsPublic (b ∷ bs)) (λ u p. Returns-pure _ _ (ground (arith, p)))

change_error-Hides : (e : Error) → Hides (change_error e)
unfolding password_in
change_error-Hides e = ground arith

change-Hides : (i : ℕ) (r : Result (Unit {0})) → Returns Hides (change_reply i r)
unfolding change_reply password_in
change-Hides i (err e) = Returns-pure _ _ (change_error-Hides e)
change-Hides i (ok u) = Returns-bind _ _ _ _ (by_id-IsPublic i) (λ x _. Returns-pure _ _ refl)

password-Hides :
    (k : Kdf) (others : Db → Db) (i : ℕ) (old new : Bytes)
    → Returns Hides (put_user_password k others i old new)
unfolding put_user_password password_in
password-Hides k others i old new =
    Returns-if _ _ _ _ (Returns-pure _ _ refl)
      (Returns-bind _ _ _ _ (Returns-attempt _) (λ r _. change-Hides i r))

-- The reply is there, and no hash is in it.
abbrev pub RepliesHidden : M Reply → World → Type 0
RepliesHidden m w = (r : Reply) × ((m w).0 ≡ ok r) × (password_in r.body ≡ [])

-- In every world, whatever fails, each handler that may put a user into its reply does reply, and the
-- user in the reply has no password hash.
pub replies_hide_hash :
    (k : Kdf) (others : LoginMoment → Db → Db) (changing : Db → Db) (c : Crypto)
    (ties : Bytes → Bytes → Bool) (login : LoginRequest) (profile : Option UserProfileUpdate)
    (i : ℕ) (value old new name : Bytes) (w : World)
    → RepliesHidden (post_user_login k others c ties login) w
      × RepliesHidden (put_user_info i profile) w
      × RepliesHidden (put_user_nick i value) w
      × RepliesHidden (put_user_desc i value) w
      × RepliesHidden (put_user_password k changing i old new) w
      × RepliesHidden (get_user_info i) w
      × RepliesHidden (get_user_info_by_username name) w
replies_hide_hash k others changing c ties login profile i value old new name w = (
  (login-Hides k others c ties login).at w,
  (info-Hides i profile).at w,
  (nick-Hides i value).at w,
  (desc-Hides i value).at w,
  (password-Hides k changing i old new).at w,
  (get-Hides i).at w,
  (name-Hides name).at w,
)
