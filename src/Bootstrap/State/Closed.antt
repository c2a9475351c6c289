-- ===== src/Bootstrap/State/Closed.antt =====
-- Once the marker of pkg/userbootstrap/bootstrap.go has left the pristine state, reconciling never
-- brings it back.
use re_casa_os_user_service.Prelude.{
  ℕ, Bool, ◌≡◌, Bytes, Option, true, inl, arith, inr, none, false, some, not, ◌⊎◌, refl, subst, sym,
  ap,
}
use re_casa_os_user_service.Bootstrap.State.{
  Seal, reconcile_body, reconcile_present, reconcile_marker, update_state, update_row, status_eq,
  user_summary, reconcile_state, new_installation_id, update_if, reconcile_by, read_state,
  is_invalid, seal_if, state_of, Outcome, with_immediate_transaction,
}
use re_casa_os_user_service.Store.{◌>>=◌, World, statement, ticked, exec, Result, M}
use re_casa_os_user_service.Model.{
  Db, pristine, State, Status, recovery, other, initialized, BootstrapState,
}
use re_casa_os_user_service.Store.Keeps.{
  Keeps, keeps_rules, Keeps-pure, Keeps-if, Keeps-statement, Keeps-bind, Keeps-draw, Keeps-exec,
  Keeps-transaction, Keeps-refuse_if,
}

-- There is a marker row, and its status is not pristine.
abbrev pub is_closed : Db → Bool
is_closed d = elim d.bootstrap [ none ↦ false | some row ↦ not (status_eq row.status pristine) ]

-- What the code relies on of a seal: it stands outside the database.
pub record SealLaws (s : Seal) : Type 0 where
  pub load_outside : (w : World) → (s.load w).1.db ≡ w.db
  pub create_outside : (i : Bytes) (w : World) → (s.create i w).1.db ≡ w.db

abbrev pub IsClosed : Db → Type 0
IsClosed d = is_closed d ≡ true

marker_closed :
    (seal : Option Bytes) (i : Bytes) (s : Status) (count : ℕ)
    → status_eq s pristine ≡ false
    → status_eq (reconcile_marker seal i s count).result.status pristine ≡ false
unfolding reconcile_marker status_eq
marker_closed seal i pristine count h = cc
marker_closed seal i initialized count h = ground arith
marker_closed seal i recovery count h = ground arith
marker_closed seal i (other x) count h = ground arith

update-IsClosed :
    (s : State) (admin : Option ℕ) (at : ℕ)
    → status_eq s.status pristine ≡ false
    → Keeps IsClosed (statement (update_row s admin at))
unfolding update_row
update-IsClosed s admin at h = Keeps-statement _ λ d k. ground arith

update_state-IsClosed :
    (s : State) (admin : Option ℕ) (at : ℕ)
    → status_eq s.status pristine ≡ false
    → Keeps IsClosed (update_state s admin at)
unfolding update_state
update_state-IsClosed s admin at h = search (keeps_rules, update-IsClosed)

update_if-IsClosed :
    (b : Bool) (s : State) (admin : Option ℕ) (at : ℕ)
    → status_eq s.status pristine ≡ false
    → Keeps IsClosed (update_if b s admin at)
unfolding update_if
update_if-IsClosed true s admin at h = update_state-IsClosed s admin at h
update_if-IsClosed false s admin at h = Keeps-pure tt

recovery_not_pristine : status_eq recovery pristine ≡ false
unfolding status_eq
recovery_not_pristine = refl

present-IsClosed :
    (seal : Option Bytes) (new_id : Bytes) (marker : State) (count : ℕ) (first : Option ℕ) (at : ℕ)
    → status_eq marker.status pristine ≡ false
    → Keeps IsClosed (reconcile_present seal new_id marker count first at)
unfolding reconcile_present
present-IsClosed seal new_id marker count first at h =
    Keeps-if (is_invalid marker) _ _
      (Keeps-bind _ _ (update_state-IsClosed _ first at recovery_not_pristine) (λ _. Keeps-pure _))
      (Keeps-bind _ _
        (update_if-IsClosed _ _ first at
          (marker_closed seal marker.installation_id marker.status count h))
        (λ _. Keeps-pure _))

body_runs :
    (seal : Option Bytes) (new_id : Bytes) (w : World)
    → ((reconcile_body seal new_id w).1.db ≡ w.db)
      ⊎ ((reconcile_body seal new_id w)
          ≡ reconcile_by seal new_id
              (read_state w.db)
              (user_summary w.db)
              w.clock
              (ticked (ticked w)))
unfolding ◌>>=◌ reconcile_body
body_runs seal new_id w = ground arith

by_closed :
    (seal : Option Bytes) (new_id : Bytes) (b : Option BootstrapState) (summary : ℕ × Option ℕ)
    (at : ℕ) (w : World)
    → w.db.bootstrap ≡ b
    → IsClosed w.db
    → is_closed (reconcile_by seal new_id (read_state w.db) summary at w).1.db ≡ true
unfolding reconcile_by
by_closed seal new_id none summary at w e h = absurd (ground (arith, e, h))
by_closed seal new_id (some row) (count, first) at w e h =
    let keeps = present-IsClosed seal new_id (state_of row) count first at (ground (arith, e, h)) in
    ground (arith, e, h, keeps.at w h)

reconcile_body-IsClosed :
    (seal : Option Bytes) (new_id : Bytes) → Keeps IsClosed (reconcile_body seal new_id)
reconcile_body-IsClosed seal new_id = record {
  at = λ w h. elim (body_runs seal new_id w) [
    | inl e ↦ subst IsClosed (sym e) h
    | inr e ↦ subst IsClosed (ap (λ (r : Result Outcome × World). r.1.db) (sym e)) (
        by_closed seal new_id w.db.bootstrap (user_summary w.db) w.clock (ticked (ticked w)) refl h)
  ];
}

module _ (random : ℕ → Option Bytes) (seal : Seal) (laws : SealLaws seal) where
  load-IsClosed : Keeps IsClosed seal.load
  load-IsClosed = record { at = λ w h. subst IsClosed (sym (laws.load_outside w)) h }

  create-IsClosed : (i : Bytes) → Keeps IsClosed (seal.create i)
  create-IsClosed i = record { at = λ w h. subst IsClosed (sym (laws.create_outside i w)) h }

  seal_if-IsClosed : (b : Bool) (i : Bytes) → Keeps IsClosed (seal_if b seal i)
  unfolding seal_if
  seal_if-IsClosed true i = create-IsClosed i
  seal_if-IsClosed false i = Keeps-pure tt

  nothing-IsClosed : Keeps IsClosed (exec (λ d. d))
  nothing-IsClosed = Keeps-exec _ λ d h. h

  immediate-IsClosed :
      {A : Type 0} (m : M A) → Keeps IsClosed m → Keeps IsClosed (with_immediate_transaction m)
  unfolding with_immediate_transaction
  immediate-IsClosed m k = Keeps-bind _ _ nothing-IsClosed (λ _. Keeps-transaction m k)

  new_id-IsClosed : Keeps IsClosed (new_installation_id random)
  unfolding new_installation_id
  new_id-IsClosed = Keeps-draw _

  pub reconcile-IsClosed : Keeps IsClosed (reconcile_state random (some seal))
  unfolding reconcile_state
  reconcile-IsClosed = Keeps-bind _ _ load-IsClosed λ seal_id.
      Keeps-bind _ _ new_id-IsClosed λ new_id.
        Keeps-bind _ _ (immediate-IsClosed _ (reconcile_body-IsClosed seal_id new_id)) λ o.
          Keeps-bind _ _ (seal_if-IsClosed _ _)
            λ _. Keeps-bind _ _ (Keeps-refuse_if _ _) λ _. Keeps-pure _

  -- Whatever fails, and whatever the seal says: once there is a marker that is not pristine,
  -- reconciling leaves one that is not pristine.
  pub reconcile_stays_closed :
      (w : World)
      → is_closed w.db ≡ true
      → is_closed (reconcile_state random (some seal) w).1.db ≡ true
  reconcile_stays_closed w h = reconcile-IsClosed.at w h
