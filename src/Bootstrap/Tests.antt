-- ===== src/Bootstrap/Tests.antt =====
-- Runs of pkg/userbootstrap/bootstrap.go from empty tables, with a seal that is a field of the world.
use re_casa_os_user_service.Prelude.{
  ℕ, Bytes, codes, ◌≡◌, refl, none, some, true, Option, Bool, ◌≢◌, bytes_eq, exists_where,
}
use re_casa_os_user_service.Store.{◌>>=◌, World, ok, refuse_if}
use re_casa_os_user_service.Bootstrap.Create.{
  create_admin, create_with, create_body, finish_create, insert_admin, add_admin, seal_state,
  run_hook,
}
use re_casa_os_user_service.Bootstrap.State.{
  status_eq, reconcile_state, reconcile_body, reconcile_by, reconcile_present, reconcile_absent,
  reconcile_marker, insert_row, update_row, update_state, update_if, seal_if,
  with_immediate_transaction, new_installation_id, user_summary, valid_status,
}
use re_casa_os_user_service.Samples.{world_of, empty_db, two_users, toy_seal, toy_laws}
use re_casa_os_user_service.Bootstrap.Create.Once.{Created}
use re_casa_os_user_service.Bootstrap.Create.Replay.{create_admin_ok, created_once}
use re_casa_os_user_service.Model.{initialized}
use re_casa_os_user_service.Bootstrap.Identifier.{installation_id_of, dashed, hex_encode, hex_digit}

abbrev random : ℕ → Option Bytes
random n = some (codes "0123456789abcdef")

abbrev argon : Bytes → Bool
argon verifier = true

abbrev start : World
start = world_of empty_db

abbrev after_first : World
after_first = (create_admin random argon (some toy_seal) (codes "root") (codes "hash") none start).1

creation_succeeds :
    (create_admin random argon (some toy_seal) (codes "root") (codes "hash") none start).0 ≡ ok 1
unfolding ◌>>=◌ create_admin create_with create_body finish_create insert_admin add_admin seal_state
    run_hook reconcile_state reconcile_body reconcile_by reconcile_present reconcile_absent
    reconcile_marker insert_row update_row update_state update_if seal_if with_immediate_transaction
    new_installation_id installation_id_of user_summary status_eq valid_status refuse_if bytes_eq
    exists_where dashed hex_encode hex_digit
creation_succeeds = refl

create_admin_ok_example :
    (argon (codes "hash") ≡ true)
    × Created (codes "root") (codes "hash") 1 start.db.users after_first.db
create_admin_ok_example =
    create_admin_ok random toy_seal toy_laws argon (codes "root") (codes "hash") none start 1
      creation_succeeds

created_once_example :
    (create_admin random argon (some toy_seal) (codes "eve") (codes "other") none after_first).0
    ≢ ok 2
created_once_example =
    created_once random random toy_seal toy_seal argon (codes "root") (codes "eve") (codes "hash")
      (codes "other") none none start after_first 1 2 toy_laws toy_laws creation_succeeds refl

abbrev sealed : World
sealed = world_of (record two_users {
  bootstrap = some (record {
    installation_id = codes "11111111-2222-4333-8444-555555555555";
    status = initialized;
    admin_user_id = some 1;
    initialized_at = some 5;
    created_at = 5;
    updated_at = 5;
  });
})

abbrev random_bytes : Bytes
random_bytes = codes "0123456789abcdef"
