-- ===== src/Bootstrap/Create/Once.antt =====
-- The administrator of pkg/userbootstrap/bootstrap.go is created exactly once.
use re_casa_os_user_service.Prelude.{
  ℕ, Bytes, Option, ◌≡◌, ◌≢◌, true, Option-cases, some, inl, arith, inr, ◌∷◌, ◌<◌, length, List, ap,
  [], sym, refl, ◌∙◌,
}
use re_casa_os_user_service.Bootstrap.State.{status_eq, read_state, user_summary}
use re_casa_os_user_service.Store.{◌>>=◌, refuse_if, Result, World, ok, ticked}
use re_casa_os_user_service.Bootstrap.Create.{
  create_body, insert_admin, add_admin, seal_state, not_open, new_admin,
}
use re_casa_os_user_service.Model.{State, Db, User}
use re_casa_os_user_service.Bootstrap.State.Closed.{IsClosed, is_closed}

closed_refused :
    (s : State) (d : Db) (summary : ℕ × Option ℕ)
    → IsClosed d
    → not_open s (read_state d) summary ≡ true
unfolding status_eq
closed_refused s d summary h = elim (Option-cases d.bootstrap) [
  | inl e ↦ ground (arith, e, h)
  | inr (row, e) ↦ ground (arith, e, h)
]

pub body_refuses :
    (name verifier : Bytes) (hook : Option (ℕ → Result (Unit {0}))) (s : State) (w : World) (i : ℕ)
    → IsClosed w.db
    → (create_body name verifier hook s w).0 ≢ ok (some i)
unfolding ◌>>=◌ create_body
body_refuses name verifier hook s w i h e =
    ground (arith, closed_refused s w.db (user_summary w.db) h)

-- What insert_admin leaves when it commits.
insert_admin_ok :
    (name verifier : Bytes) (hook : Option (ℕ → Result (Unit {0}))) (s : State) (w : World) (i : ℕ)
    → (insert_admin name verifier hook s w).0 ≡ ok (some i)
    → let d = (insert_admin name verifier hook s w).1.db in
      (d.users ≡ new_admin i name verifier w.clock ∷ w.db.users) × (is_closed d ≡ true) × (0 < i)
unfolding ◌>>=◌ insert_admin add_admin seal_state refuse_if status_eq
insert_admin_ok name verifier hook s w i h = elim (Option-cases w.db.bootstrap) [
  | inl e ↦ absurd (ground (arith, e))
  | inr (row, e) ↦ (ground (arith, e), ground (arith, e), ground (arith, e))
]

empty_of_length : (us : List User) → length us ≡ 0 → us ≡ []
empty_of_length [] h = refl
empty_of_length (u ∷ us) h = absurd (omega arith)

body_open :
    (name verifier : Bytes) (hook : Option (ℕ → Result (Unit {0}))) (s : State) (w : World) (i : ℕ)
    → (create_body name verifier hook s w).0 ≡ ok (some i)
    → (length w.db.users ≡ 0)
      × (create_body name verifier hook s w ≡ insert_admin name verifier hook s (ticked (ticked w)))
unfolding ◌>>=◌ create_body user_summary
body_open name verifier hook s w i h = elim (Option-cases w.db.bootstrap) [
  | inl e ↦ (ground (arith, e), ground (arith, e))
  | inr (row, e) ↦ (ground (arith, e), ground (arith, e))
]

-- The tables after a creation of user `i`, from tables with the users `before`.
abbrev pub Created : Bytes → Bytes → ℕ → List User → Db → Type 0
Created name verifier i before d =
    (before ≡ [])
    × ((at : ℕ) × (d.users ≡ new_admin i name verifier at ∷ []))
    × (is_closed d ≡ true)
    × (0 < i)

pub body_creates :
    (name verifier : Bytes) (hook : Option (ℕ → Result (Unit {0}))) (s : State) (w : World) (i : ℕ)
    → (create_body name verifier hook s w).0 ≡ ok (some i)
    → Created name verifier i w.db.users (create_body name verifier hook s w).1.db
body_creates name verifier hook s w i h =
    let (len, same) = body_open name verifier hook s w i h in
    let none_before = empty_of_length w.db.users len in
    let (us, closed, pos) =
      insert_admin_ok name verifier hook s (ticked (ticked w)) i
        (ap (λ (r : Result (Option ℕ) × World). r.0) (sym same) ∙ h) in
    (
      none_before,
      (
        w.clock,
        ap (λ (r : Result (Option ℕ) × World). r.1.db.users) same
            ∙ us
            ∙ ap (λ (l : List User). new_admin i name verifier w.clock ∷ l) none_before,
      ),
      ap (λ (r : Result (Option ℕ) × World). is_closed r.1.db) same ∙ closed,
      pos,
    )
