-- ===== src/Session/Refresh/Rotation.antt =====
-- What a rotation of service/session.go does on its branches.
use re_casa_os_user_service.Prelude.{
  ℕ, ◌<◌, ◌≡◌, Bytes, none, some, ◌∷◌, update_where, arith, Option-cases, inl, ◌∙◌, inr,
}
use re_casa_os_user_service.Model.{Db, RefreshSession}
use re_casa_os_user_service.Store.{◌>>=◌, World, ok, ticked, refuse_if, Error, err}
use re_casa_os_user_service.Session.Refresh.{
  fresh_session, unused, mark_used, add_session, consume, find_session, rotate_body,
  rotate_refresh_session, contain_reuse, Moment,
}

-- The tables after a rotation of `row`.
abbrev pub rotated : RefreshSession → Bytes → Bytes → ℕ → ℕ → ℕ → Db → Db
rotated row replacement_id replacement_sha256 issued_at expires_at now d = record d {
  sessions =
      fresh_session replacement_id row.user_id replacement_sha256 issued_at expires_at
      ∷ update_where (unused row.id) (mark_used now replacement_id) d.sessions;
}

module _ (presented rid rsha : Bytes) (issued expires now : ℕ) (w : World) where
  body_ok :
      (cur row : RefreshSession)
      → find_session presented w.db ≡ some row
      → (rotate_body presented rid rsha issued expires now w).0 ≡ ok cur
      → (row.used_at ≡ none)
        × (row.revoked_at ≡ none)
        × (now < row.expires_at)
        × (cur ≡ mark_used now rid row)
        × ((rotate_body presented rid rsha issued expires now w).1.db
            ≡ rotated row rid rsha issued expires now w.db)
  unfolding ◌>>=◌ rotate_body consume add_session
  body_ok cur row f h = ground (arith, f)

pub body_of_rotate :
    (o : Moment → Db → Db) (t rid rsha : Bytes) (issued expires now : ℕ) (w : World)
    (cur : RefreshSession)
    → (rotate_refresh_session o t rid rsha issued expires now w).0 ≡ ok cur
    → ((rotate_body t rid rsha issued expires now (ticked w)).0 ≡ ok cur)
      × ((rotate_refresh_session o t rid rsha issued expires now w).1.db
          ≡ (rotate_body t rid rsha issued expires now (ticked w)).1.db)
unfolding ◌>>=◌ rotate_refresh_session refuse_if contain_reuse
body_of_rotate o t rid rsha issued expires now w cur h = ground arith

pub body_finds :
    (t rid rsha : Bytes) (issued expires now : ℕ) (w : World) (cur : RefreshSession)
    → (rotate_body t rid rsha issued expires now w).0 ≡ ok cur
    → (row : RefreshSession) × (find_session t w.db ≡ some row) × Unit {0}
unfolding ◌>>=◌ rotate_body
body_finds t rid rsha issued expires now w cur h = elim (Option-cases (find_session t w.db)) [
  | inl e ↦ absurd (ground (arith, e))
  | inr (row, e) ↦ (row, e, tt)
]

-- A rotation that succeeds found a row with the presented digest that was neither used, revoked nor
-- expired; it returns that row marked as used, and the tables differ in that mark and in one new
-- live session of the same user.
pub rotate_ok :
    (o : Moment → Db → Db) (t rid rsha : Bytes) (issued expires now : ℕ) (w : World)
    (cur : RefreshSession)
    → (rotate_refresh_session o t rid rsha issued expires now w).0 ≡ ok cur
    → (row : RefreshSession) × (find_session t w.db ≡ some row)
      × (row.used_at ≡ none)
      × (row.revoked_at ≡ none)
      × (now < row.expires_at)
      × (cur ≡ mark_used now rid row)
      × ((rotate_refresh_session o t rid rsha issued expires now w).1.db
          ≡ rotated row rid rsha issued expires now w.db)
rotate_ok o t rid rsha issued expires now w cur h =
    let first = body_of_rotate o t rid rsha issued expires now w cur h in
    let (row, found, _) = body_finds t rid rsha issued expires now (ticked w) cur first.0 in
    let (a, b, c, d, e) = body_ok t rid rsha issued expires now (ticked w) cur row found first.0 in
    (row, found, a, b, c, d, first.1 ∙ e)

-- A rotation that fails leaves the tables as they were, unless the presented row was used before.
pub rotate_atomic :
    (o : Moment → Db → Db) (t rid rsha : Bytes) (issued expires now : ℕ) (w : World) (e : Error)
    → ((row : RefreshSession) → find_session t w.db ≡ some row → row.used_at ≡ none)
    → (rotate_refresh_session o t rid rsha issued expires now w).0 ≡ err e
    → (rotate_refresh_session o t rid rsha issued expires now w).1.db ≡ w.db
unfolding ◌>>=◌ rotate_refresh_session rotate_body refuse_if
rotate_atomic o t rid rsha issued expires now w e fresh h =
    elim (Option-cases (find_session t w.db)) [
      | inl none_found ↦ ground (arith, none_found)
      | inr (row, found) ↦ ground (arith, found, fresh row found)
    ]
