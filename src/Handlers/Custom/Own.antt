-- ===== src/Handlers/Custom/Own.antt =====
-- route/v1/user.go: what a request to store or delete a custom configuration reaches.
use re_casa_os_user_service.Prelude.{
  ℕ, Bytes, ◌≡◌, some, true, false, [], ◌∷◌, inl, inr, find_where, ◌⊎◌, List, ◌≢◌, arith,
  Option-cases, Bool-cases, refl, if◌then◌else◌, ◌==◌, ap, itoa, ◌∙◌, subst, sym, Bool,
}
use re_casa_os_user_service.Store.{◌>>=◌}
use re_casa_os_user_service.Files.{Answer, done, failed}
use re_casa_os_user_service.Files.Disk.{Disk}
use re_casa_os_user_service.Users.Lookup.{get_user_info_by_id, first_user, zero_user, selected}
use re_casa_os_user_service.Handlers.Custom.{
  Served, with_custom_key, served, invalid_custom_config, post_user_custom_conf, written_reply,
  Upload, store_upload, received, guarded, too_large, broken,
}
use re_casa_os_user_service.Model.{User}
use re_casa_os_user_service.UserConfig.Store.Spares.{Foreign}
use re_casa_os_user_service.Handlers.{Reply, success, reply, service_error, user_not_exist, nothing}
use re_casa_os_user_service.Store.Returns.{Returns, Returns-if, Returns-pure, Returns-bind}
use re_casa_os_user_service.Session.Access.{has_id, find_user}
use re_casa_os_user_service.Files.Disk.Seen.{seen}
use re_casa_os_user_service.UserConfig.Store.Atomic.{Whole, Holds}
use re_casa_os_user_service.UserConfig.Place.{Place}
use re_casa_os_user_service.UserConfig.Store.{write, filename}
use re_casa_os_user_service.UserConfig.Store.Isolation.{changes_stay_local}
use re_casa_os_user_service.UserConfig.Store.AllOrNothing.{write_all_or_nothing}

find_where-meets :
    (i : ℕ) (xs : List User) (u : User) → find_where (has_id i) xs ≡ some u → u.id ≡ i
unfolding find_where
find_where-meets i [] u e = ground (arith, e)
find_where-meets i (x ∷ xs) u e = elim (Bool-cases (has_id i x)) [
  | inl t ↦ ground (arith, t, e)
  | inr t ↦ find_where-meets i xs u (ground (arith, t, e))
]

Own : ℕ → User → Type 0
Own i u = (u.id ≡ 0) ⊎ (u.id ≡ i)

Returns-user : (i : ℕ) → Returns (Own i) (get_user_info_by_id i)
unfolding ◌>>=◌ get_user_info_by_id first_user find_user Own
Returns-user i = record {
  at = λ w. elim (Option-cases (find_where (has_id i) w.db.users)) [
    | inl e ↦ elim (Bool-cases (w.fails w.calls)) [
      | inl t ↦ (zero_user, ground (arith, t), inl refl)
      | inr t ↦ (zero_user, ground (arith, e, t), inl refl)
    ]
    | inr (u, e) ↦ elim (Bool-cases (w.fails w.calls)) [
      | inl t ↦ (zero_user, ground (arith, t), inl refl)
      | inr t ↦ (selected u, ground (arith, e, t), inr (find_where-meets i w.db.users u e))
    ]
  ];
}

-- Started on any disk, it changes only the configuration `key` of the user `i` and temporary files,
-- and it reports success only if `Done` holds of the disk that it leaves.
pub record Serves (i : ℕ) (key : Bytes) (Done : Disk → Served → Type 0) (f : Disk → Served)
    : Type 0 where
  pub spares : (d : Disk) (h n : Bytes) → Foreign i key h n → seen h n (f d).disk ≡ seen h n d
  pub succeeds : (d : Disk) → (f d).reply.status ≡ success → Done d (f d)

Serves-still :
    (i : ℕ) (key : Bytes) (Done : Disk → Served → Type 0) (r : Reply)
    → r.status ≢ success
    → Serves i key Done (served r)
Serves-still i key Done r q = record { spares = λ d h n o. refl; succeeds = λ d e. absurd (q e) }

module _ (name : Bytes) (i : ℕ) (Done : Disk → Served → Type 0) where
  Serves-user :
      (act : ℕ → Disk → Served) (j : ℕ) (b : Bool)
      → (b ≡ false → j ≡ i)
      → Serves i name Done (act i)
      → Serves i name Done
          (if b then served (guarded (reply service_error user_not_exist nothing)) else act j)
  Serves-user act j true own k = Serves-still i name Done _ (λ e. ground (arith, e))
  Serves-user act j false own k = subst (λ x. Serves i name Done (act x)) (sym (own refl)) k

  Returns-with_custom_key :
      (act : ℕ → Disk → Served)
      → Serves i name Done (act i)
      → Returns (Serves i name Done) (with_custom_key name i act)
  unfolding with_custom_key Own
  Returns-with_custom_key act k =
      Returns-if _ _ _ _
        (Returns-pure _ _ (Serves-still i name Done invalid_custom_config (λ e. ground (arith, e))))
        (Returns-if _ _ _ _
          (Returns-pure _ _
            (Serves-still i name Done invalid_custom_config (λ e. ground (arith, e))))
          (Returns-bind _ _ _ _ (Returns-user i) (λ user own. Returns-pure _ _ (
            Serves-user act user.id (user.id == 0)
              (λ e. elim own [ inl z ↦ absurd (ground (arith, e, z)) | inr z ↦ z ]) k))))

-- The configuration's file holds what was uploaded, with mode 0600.
abbrev pub Stored : ℕ → ℕ → Bytes → Upload → Disk → Served → Type 0
Stored euid i name body d r =
    (s : Bytes) × (body ≡ received s) × Holds euid (itoa i) (filename name) s r.disk

Serves-written :
    (euid i : ℕ) (name s : Bytes) (d : Disk) (r : Answer (Unit {0}) × Disk)
    → Whole euid (itoa i) (filename name) s d r
    → (written_reply name s r.0 r.1).reply.status ≡ success
    → Stored euid i name (received s) d (written_reply name s r.0 r.1)
unfolding written_reply
Serves-written euid i name s d (failed x, d') q e = absurd (ground (arith, e))
Serves-written euid i name s d (done u, d') (inl q) e = absurd (q.1 u refl)
Serves-written euid i name s d (done u, d') (inr q) e = (s, refl, q)

written-disk :
    (name s : Bytes) (r : Answer (Unit {0})) (d : Disk) → (written_reply name s r d).disk ≡ d
unfolding written_reply
written-disk name s (done u) d = refl
written-disk name s (failed e) d = refl

Serves-upload :
    (euid : ℕ) (p : Place) (name : Bytes) (body : Upload) (i : ℕ)
    → Serves i name (Stored euid i name body) (store_upload euid p name body i)
unfolding store_upload
Serves-upload euid p name too_large i = Serves-still i name _ _ (λ e. ground (arith, e))
Serves-upload euid p name broken i = Serves-still i name _ _ (λ e. ground (arith, e))
Serves-upload euid p name (received s) i = record {
  spares = λ d h n o.
      ap (seen h n) (written-disk name s (write euid p i name s d).0 (write euid p i name s d).1)
      ∙ (changes_stay_local euid p i name s h n d o).0;
  succeeds = λ d e.
      Serves-written euid i name s d (write euid p i name s d)
        (write_all_or_nothing euid p i name s d) e;
}

-- Storing a configuration over HTTP always gives a reply, in every database and whatever fails. It
-- changes no file but that configuration of the user of the request and temporary files of that
-- user, and if it reports success then the configuration's file holds exactly the body, with mode
-- 0600.
pub post_user_custom_conf_ok :
    (euid : ℕ) (p : Place) (name : Bytes) (user_id : ℕ) (body : Upload)
    → Returns
        (Serves user_id name (Stored euid user_id name body))
        (post_user_custom_conf euid p name user_id body)
unfolding post_user_custom_conf
post_user_custom_conf_ok euid p name user_id body =
    Returns-with_custom_key name user_id (Stored euid user_id name body) _
      (Serves-upload euid p name body user_id)
