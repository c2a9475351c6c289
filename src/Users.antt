-- ===== src/Users.antt =====
-- service/user.go: accounts, authentication and password changes.
pub mod Deletion
pub mod Change
pub mod Login
pub mod Lookup
pub mod Reset
mod Tests
use re_casa_os_user_service.Prelude.{
  ℕ, ◌+◌, Bytes, codes, Bool, true, false, not, Option, none, some, ◌&&◌, ◌||◌, List, [], ◌∷◌, ltb,
  leb, ◌==◌, is_empty, bytes_eq, length, find_where, update_where, delete_where, count_where,
  exists_where, map, if◌then◌else◌,
}
use re_casa_os_user_service.Model.{Db, User, password_changed as event_password_changed}
use re_casa_os_user_service.Store.{
  draw, interleave, M, Result, ok, err, invalid_credentials, weak_password, password_changed,
  user_not_found, last_admin, pure, raise, lift, or_err, refuse_if, time_now, attempt, ignore,
  query, statement, ◌>>=◌, ◌>>◌, insert,
}
use re_casa_os_user_service.Password.{Kdf, verify, needs_rehash, hash}
use re_casa_os_user_service.Session.Access.{has_id, find_user}
use re_casa_os_user_service.Session.Refresh.{revoke_user_sessions, revoke_all_user_sessions}
use re_casa_os_user_service.Session.Events.{log_credential_event}
use re_casa_os_user_service.Bootstrap.State.{with_immediate_transaction}
use re_casa_os_user_service.Bootstrap.Create.{admin_role}

abbrev pub is_line_byte : ℕ → Bool
is_line_byte b = b == 0 || b == 13 || b == 10

unfoldable pub has_line_byte : Bytes → Bool
has_line_byte [] = false
has_line_byte (b ∷ bs) = is_line_byte b || has_line_byte bs

unfoldable pub validate_new_password : Bytes → Result (Unit {0})
validate_new_password plaintext =
    if ltb (length plaintext) 12 || ltb 1024 (length plaintext)
    then err weak_password
    else if has_line_byte plaintext
    then err weak_password
    else ok tt

abbrev pub has_username : Bytes → User → Bool
has_username name u = bytes_eq u.username name

unfoldable pub find_by_username : Bytes → Db → Option User
find_by_username name d = find_where (has_username name) d.users

abbrev pub empty_or_over : ℕ → Bytes → Bool
empty_or_over n s = is_empty s || ltb n (length s)

abbrev as_credentials : Result (Unit {0}) → Result (Unit {0})
as_credentials (ok u) = ok u
as_credentials (err e) = err invalid_credentials

-- WHERE id = ? AND password = ?
abbrev pub holds : ℕ → Bytes → User → Bool
holds i old u = u.id == i && bytes_eq u.password old

abbrev pub set_password : Bytes → User → User
set_password new u = record u { password = new }

abbrev pub stored_password : Bytes → ℕ → User → User
stored_password new at u = record u { password = new; updated_at = at }

-- The compare-and-swap on the verifier, with the number of rows affected.
unfoldable pub swap_password : (User → User) → ℕ → Bytes → Db → ℕ × Db
swap_password change i old d = (
  count_where (holds i old) d.users,
  record d { users = update_where (holds i old) change d.users },
)

-- password.Hash with the salt that the random source gives now.
unfoldable pub new_hash : Kdf → Bytes → M Bytes
new_hash k plaintext = draw (λ n. hash k plaintext (k.salts n))

abbrev row_or_refused : Result (Option User) → Result User
row_or_refused (ok (some u)) = ok u
row_or_refused _ = err invalid_credentials

-- Somebody else changed the verifier: look at the row again.
unfoldable pub recheck : Kdf → ℕ → Bytes → M User
recheck k i plaintext = do
  found ← attempt (query (find_user i))
  current ← lift (row_or_refused found)
  lift (as_credentials (verify k current.password plaintext))
  pure current

unfoldable pub settle_upgrade : Kdf → User → Bytes → Bytes → ℕ → M User
settle_upgrade k user plaintext verifier rows =
    if rows == 0 then recheck k user.id plaintext else pure (set_password verifier user)

unfoldable pub upgrade_hash : Kdf → (Db → Db) → User → Bytes → M User
upgrade_hash k others user plaintext = do
  verifier ← new_hash k plaintext
  interleave others
  at ← time_now
  rows ← statement (swap_password (stored_password verifier at) user.id user.password)
  settle_upgrade k user plaintext verifier rows

unfoldable pub authenticate_user : Kdf → (Db → Db) → Bytes → Bytes → M User
authenticate_user k others username plaintext = do
  refuse_if (empty_or_over 256 username || empty_or_over 1024 plaintext) invalid_credentials
  found ← query (find_by_username username)
  user ← or_err found invalid_credentials
  lift (as_credentials (verify k user.password plaintext))
  if needs_rehash k user.password then upgrade_hash k others user plaintext else pure user

abbrev pub with_new_password : Bytes → ℕ → User → User
with_new_password new at u = record u {
  password = new;
  token_version = u.token_version + 1;
  updated_at = at;
}

abbrev pub change_source : Bytes
change_source = codes "password-change"

-- The old password is wrong: record that and refuse.
unfoldable pub refuse_change : ℕ → Result (Unit {0}) → M (Unit {0})
refuse_change i (ok u) = pure tt
refuse_change i (err e) = do
  log_credential_event i event_password_changed false change_source []
  raise invalid_credentials

-- Store the new verifier if the row still holds the verified one. A password change retires every
-- session of the user.
unfoldable pub commit_password : Kdf → (Db → Db) → User → Bytes → M (Unit {0})
commit_password k others user new = do
  verifier ← new_hash k new
  interleave others
  stored ← time_now
  rows ← statement (swap_password (with_new_password verifier stored) user.id user.password)
  refuse_if (not (rows == 1)) password_changed
  at ← time_now
  ignore (revoke_user_sessions user.id at (codes "password change"))
  log_credential_event user.id event_password_changed true change_source []

unfoldable pub change_user_password : Kdf → (Db → Db) → ℕ → Bytes → Bytes → M (Unit {0})
change_user_password k others i old new = do
  lift (validate_new_password new)
  refuse_if (empty_or_over 1024 old) invalid_credentials
  found ← query (find_user i)
  user ← or_err found invalid_credentials
  refuse_change user.id (verify k user.password old)
  commit_password k others user new

abbrev pub is_admin : User → Bool
is_admin u = bytes_eq u.role admin_role

unfoldable pub remove_user : ℕ → Db → ℕ × Db
remove_user i d =
    (count_where (has_id i) d.users, record d { users = delete_where (has_id i) d.users })

unfoldable pub unless_last : Bool → M (Unit {0})
unless_last true = do n ← query (λ d. count_where is_admin d.users); refuse_if (leb n 1) last_admin
unless_last false = pure tt

unfoldable pub delete_body : ℕ → M (Unit {0})
delete_body i = do
  found ← query (find_user i)
  user ← or_err found user_not_found
  unless_last (is_admin user)
  rows ← statement (remove_user i)
  refuse_if (not (rows == 1)) user_not_found

unfoldable pub revoke_deleted : Option ℕ → M (Unit {0})
revoke_deleted none = pure tt
revoke_deleted (some i) = ignore (revoke_all_user_sessions i (codes "account deleted"))

-- The id is a text: `row_id` is the row that SQLite compares it equal to (0 for none), `number` is
-- what strconv.Atoi reads in it.
unfoldable pub delete_user_by_id : ℕ → Option ℕ → M (Unit {0})
delete_user_by_id row_id number = do
  with_immediate_transaction (delete_body row_id)
  revoke_deleted number

unfoldable pub delete_all_user : M (Unit {0})
delete_all_user = raise last_admin

-- Updates with a struct skips empty fields; password, role and token_version are omitted.
abbrev pub non_empty_or : Bytes → Bytes → Bytes
non_empty_or [] old = old
non_empty_or (b ∷ bs) old = b ∷ bs

unfoldable pub merged : User → ℕ → User → User
merged m at u = record u {
  username = non_empty_or m.username u.username;
  email = non_empty_or m.email u.email;
  nickname = non_empty_or m.nickname u.nickname;
  avatar = non_empty_or m.avatar u.avatar;
  description = non_empty_or m.description u.description;
  updated_at = at;
}

-- The unique index refuses a name that another row has; an empty name is not updated.
unfoldable pub apply_update : User → ℕ → Db → Option Db
apply_update m at d =
    if not (is_empty m.username)
      && exists_where (λ u. not (u.id == m.id) && has_username m.username u) d.users
    then none
    else some (record d { users = update_where (has_id m.id) (merged m at) d.users })

unfoldable pub update_user : User → M (Unit {0})
update_user m = do at ← time_now; ignore (insert (apply_update m at))

abbrev names_or_nil : Result (List Bytes) → List Bytes
names_or_nil (ok ns) = ns
names_or_nil (err e) = []

unfoldable pub get_all_user_name : M (List Bytes)
get_all_user_name w =
    (do
      found ← attempt (query (λ d. map (λ (u : User). u.username) d.users))
      pure (names_or_nil found))
      w
