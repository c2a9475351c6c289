-- ===== src/Bootstrap/State/UsersKept.antt =====
-- ReconcileState of pkg/userbootstrap/bootstrap.go never touches the users table.
use re_casa_os_user_service.Prelude.{
  ℕ, Option, List, Bytes, Bool, ◌≡◌, true, some, subst, arith, sym, none, false,
}
use re_casa_os_user_service.Model.{User, Db, State}
use re_casa_os_user_service.Bootstrap.State.{
  update_state, reconcile_body, reconcile_by, insert_row, update_row, update_if, Seal,
  reconcile_present, seal_if, reconcile_state, new_installation_id, with_immediate_transaction,
  is_invalid,
}
use re_casa_os_user_service.Store.Keeps.{
  Keeps, Keeps-pure, keeps_rules, Keeps-statement, Keeps-insert, Keeps-if, Keeps-bind, Keeps-draw,
  Keeps-exec, Keeps-transaction, Keeps-refuse_if,
}
use re_casa_os_user_service.Bootstrap.State.Closed.{SealLaws}
use re_casa_os_user_service.Store.{insert, statement}

abbrev pub HasUsers : List User → Db → Type 0
HasUsers us d = d.users ≡ us

module _ (us : List User) where
  update-HasUsers :
      (s : State) (admin : Option ℕ) (at : ℕ)
      → Keeps (HasUsers us) (statement (update_row s admin at))
  unfolding update_row
  update-HasUsers s admin at = Keeps-statement _ λ d k. ground arith

  insert-HasUsers :
      (s : State) (admin : Option ℕ) (at : ℕ) → Keeps (HasUsers us) (insert (insert_row s admin at))
  unfolding insert_row
  insert-HasUsers s admin at = Keeps-insert _ λ d d' k e. ground arith

  update_state-HasUsers :
      (s : State) (admin : Option ℕ) (at : ℕ) → Keeps (HasUsers us) (update_state s admin at)
  unfolding update_state
  update_state-HasUsers s admin at = search (keeps_rules, update-HasUsers)

  update_if-HasUsers :
      (b : Bool) (s : State) (admin : Option ℕ) (at : ℕ)
      → Keeps (HasUsers us) (update_if b s admin at)
  unfolding update_if
  update_if-HasUsers true s admin at = update_state-HasUsers s admin at
  update_if-HasUsers false s admin at = Keeps-pure tt

  by-HasUsers :
      (seal : Option Bytes) (new_id : Bytes) (marker : Option State) (summary : ℕ × Option ℕ)
      (at : ℕ)
      → Keeps (HasUsers us) (reconcile_by seal new_id marker summary at)
  unfolding reconcile_by reconcile_present
  by-HasUsers seal new_id none (count, first) at = search (keeps_rules, insert-HasUsers)
  by-HasUsers seal new_id (some marker) (count, first) at =
      Keeps-if (is_invalid marker) _ _
        (Keeps-bind _ _ (update_state-HasUsers _ first at) (λ _. Keeps-pure _))
        (Keeps-bind _ _ (update_if-HasUsers _ _ first at) (λ _. Keeps-pure _))

  body-HasUsers :
      (seal : Option Bytes) (new_id : Bytes) → Keeps (HasUsers us) (reconcile_body seal new_id)
  unfolding reconcile_body
  body-HasUsers seal new_id = search (keeps_rules, by-HasUsers)

module _ (random : ℕ → Option Bytes) (seal : Seal) (laws : SealLaws seal) (us : List User) where
  seal_if-HasUsers : (b : Bool) (i : Bytes) → Keeps (HasUsers us) (seal_if b seal i)
  unfolding seal_if
  seal_if-HasUsers true i = record {
    at = λ w h. subst (HasUsers us) (sym (laws.create_outside i w)) h;
  }
  seal_if-HasUsers false i = Keeps-pure tt

  pub reconcile-HasUsers : Keeps (HasUsers us) (reconcile_state random (some seal))
  unfolding reconcile_state new_installation_id with_immediate_transaction
  reconcile-HasUsers =
      Keeps-bind _ _ (record { at = λ w h. subst (HasUsers us) (sym (laws.load_outside w)) h })
        λ seal_id. Keeps-bind _ _ (Keeps-draw _) λ new_id.
          Keeps-bind _ _
            (Keeps-bind _ _ (Keeps-exec _ λ d h. h)
              λ _. Keeps-transaction _ (body-HasUsers us seal_id new_id))
            λ o.
              Keeps-bind _ _ (seal_if-HasUsers _ _)
                λ _. Keeps-bind _ _ (Keeps-refuse_if _ _) λ _. Keeps-pure _
