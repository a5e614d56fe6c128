-- ===== src/Backend/Access/Administrators.antt =====
-- An active administrator remains, over any calls of the service.
use wi_fi_test_orchestrator.Prelude.{ℕ, refl, Option, List, [], ◌∷◌}
use wi_fi_test_orchestrator.Backend.Access.{
  RoleKey, Db, create_user, disable_user, assign_role, revoke_sessions, remove_role,
}
use wi_fi_test_orchestrator.Backend.Access.Removal.{remove_found-Administered}
use wi_fi_test_orchestrator.Backend.Access.Keeps.{
  Administered, create_user-Administered, disable_found-Administered, revoke_found-Administered,
  assign_found-Administered,
}

-- A call of a method, at a time and by an actor.
pub data Op : Type 0 where
  create : ℕ → ℕ → Option ℕ → ℕ → ℕ → Op
  disable_one : ℕ → ℕ → ℕ → Op
  assign : ℕ → RoleKey → ℕ → Op
  revoke : ℕ → ℕ → ℕ → Op
  remove : ℕ → RoleKey → ℕ → Op

unfoldable pub apply : Op → Db → Db
apply (create id name email hash actor) db = (create_user id name email hash actor db).1
apply (disable_one now id actor) db = (disable_user now id actor db).1
apply (assign id key actor) db = (assign_role id key actor db).1
apply (revoke now id actor) db = (revoke_sessions now id actor db).1
apply (remove id key actor) db = (remove_role id key actor db).1

unfoldable pub run : List Op → Db → Db
unfolding apply
run [] db = db
run (op ∷ ops) db = run ops (apply op db)

apply-Administered : (op : Op) (db : Db) → Administered db → Administered (apply op db)
unfolding apply disable_user assign_role revoke_sessions remove_role
apply-Administered (create id name email hash actor) db inv =
    create_user-Administered id name email hash actor db inv
apply-Administered (disable_one now id actor) db inv = disable_found-Administered now actor _ db inv
apply-Administered (assign id key actor) db inv = assign_found-Administered actor _ _ db inv
apply-Administered (revoke now id actor) db inv = revoke_found-Administered now actor _ db inv
apply-Administered (remove id key actor) db inv =
    remove_found-Administered key actor _ _ db id refl refl inv

-- From tables that keep the constraints of the schema and have an active administrator, any calls of
-- the service, with any arguments and in any order, lead to such tables.
pub run-Administered : (ops : List Op) (db : Db) → Administered db → Administered (run ops db)
unfolding run
run-Administered [] db inv = inv
run-Administered (op ∷ ops) db inv =
    run-Administered ops (apply op db) (apply-Administered op db inv)
