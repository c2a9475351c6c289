-- ===== src/Handlers/Profile/Credentials.antt =====
-- What the profile handlers of route/v1/user.go leave alone.
use re_casa_os_user_service.Prelude.{
  ℕ, Bytes, Option, none, some, List, ◌≡◌, refl, arith, map, map-update_where, ◌∷◌, is_empty, ◌∙◌,
  [],
}
use re_casa_os_user_service.Store.{World, insert}
use re_casa_os_user_service.Handlers.Profile.{
  name_owner, UserProfileUpdate, put_profile, put_field, put_user_desc, put_user_info, save_profile,
  put_user_nick,
}
use re_casa_os_user_service.Model.{Db, User}
use re_casa_os_user_service.Users.{apply_update, merged, update_user}
use re_casa_os_user_service.Users.Lookup.{
  get_user_info_by_id, get_user_info_by_user_name, first_user,
}
use re_casa_os_user_service.Store.Keeps.{Keeps, keeps_rules, Keeps-if, Keeps-pure, Keeps-insert}
use re_casa_os_user_service.Session.Access.{has_id}

-- What decides over logins, sessions and rights.
abbrev pub credential : User → ℕ × Bytes × Bytes × ℕ
credential u = (u.id, u.password, u.role, u.token_version)

abbrev HasCredentials : List (ℕ × Bytes × Bytes × ℕ) → Db → Type 0
HasCredentials cs d = map credential d.users ≡ cs

credential-merged : (m : User) (at : ℕ) (u : User) → credential (merged m at u) ≡ credential u
unfolding merged
credential-merged m at u = refl

applied :
    (m : User) (at : ℕ) (d d' : Db)
    → apply_update m at d ≡ some d'
    → map credential d'.users ≡ map credential d.users
unfolding apply_update
applied m at d d' e = ground (
  arith,
  e,
  map-update_where credential (has_id m.id) (merged m at) (credential-merged m at) d.users,
)

module _ (cs : List (ℕ × Bytes × Bytes × ℕ)) where
  apply-HasCredentials :
      (m : User) (at : ℕ) → Keeps (HasCredentials cs) (insert (apply_update m at))
  unfolding apply_update
  apply-HasCredentials m at = Keeps-insert _ λ d d' h e. applied m at d d' e ∙ h

  update-HasCredentials : (m : User) → Keeps (HasCredentials cs) (update_user m)
  unfolding update_user
  update-HasCredentials m = search (keeps_rules, apply-HasCredentials) depth 12

  by_id-HasCredentials : (i : ℕ) → Keeps (HasCredentials cs) (get_user_info_by_id i)
  unfolding get_user_info_by_id first_user
  by_id-HasCredentials i = search keeps_rules depth 12

  owner-HasCredentials : (name : Bytes) → Keeps (HasCredentials cs) (name_owner name)
  unfolding name_owner get_user_info_by_user_name first_user
  owner-HasCredentials [] = Keeps-pure _
  owner-HasCredentials (b ∷ bs) = search keeps_rules depth 12

  save-HasCredentials :
      (i : ℕ) (user changed : User) → Keeps (HasCredentials cs) (save_profile i user changed)
  unfolding save_profile
  save-HasCredentials i user changed =
      search (keeps_rules, update-HasCredentials, by_id-HasCredentials) depth 12

  profile-HasCredentials :
      (i : ℕ) (p : UserProfileUpdate) (user : User)
      → Keeps (HasCredentials cs) (put_profile i p user)
  unfolding put_profile
  profile-HasCredentials i p user =
      search (keeps_rules, owner-HasCredentials, save-HasCredentials) depth 12

  info-HasCredentials :
      (i : ℕ) (p : Option UserProfileUpdate) → Keeps (HasCredentials cs) (put_user_info i p)
  unfolding put_user_info
  info-HasCredentials i none = Keeps-pure _
  info-HasCredentials i (some p) =
      search (keeps_rules, by_id-HasCredentials, profile-HasCredentials) depth 12

  field-HasCredentials :
      (change : User → User) (i : ℕ) → Keeps (HasCredentials cs) (put_field change i)
  unfolding put_field
  field-HasCredentials change i =
      search (keeps_rules, by_id-HasCredentials, update-HasCredentials) depth 12

  nick-HasCredentials : (i : ℕ) (value : Bytes) → Keeps (HasCredentials cs) (put_user_nick i value)
  unfolding put_user_nick
  nick-HasCredentials i value =
      Keeps-if (is_empty value) _ _ (Keeps-pure _) (field-HasCredentials _ i)

  desc-HasCredentials : (i : ℕ) (value : Bytes) → Keeps (HasCredentials cs) (put_user_desc i value)
  unfolding put_user_desc
  desc-HasCredentials i value =
      Keeps-if (is_empty value) _ _ (Keeps-pure _) (field-HasCredentials _ i)

-- Whatever a profile request holds and whatever fails, the profile handlers add and remove no
-- account, and every account keeps its id, password hash, role and credential generation.
pub profile_keeps_credentials :
    (i : ℕ) (p : Option UserProfileUpdate) (value : Bytes) (w : World)
    → (map credential (put_user_info i p w).1.db.users ≡ map credential w.db.users)
      × (map credential (put_user_nick i value w).1.db.users ≡ map credential w.db.users)
      × (map credential (put_user_desc i value w).1.db.users ≡ map credential w.db.users)
profile_keeps_credentials i p value w =
    let cs = map credential w.db.users in
    (
      (info-HasCredentials cs i p).at w refl,
      (nick-HasCredentials cs i value).at w refl,
      (desc-HasCredentials cs i value).at w refl,
    )
