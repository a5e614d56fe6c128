-- ===== src/Backend/Access/Tests.antt =====
-- The theorem on administrators at concrete tables.
use wi_fi_test_orchestrator.Prelude.{refl, none, [], ◌∷◌, arith}
use wi_fi_test_orchestrator.Backend.Access.{
  administrator, other_key, Db, new_user, count_active, joined,
}
use wi_fi_test_orchestrator.Prelude.Table.{count}
use wi_fi_test_orchestrator.Backend.Access.Keeps.{Administered}
use wi_fi_test_orchestrator.Backend.Access.Administrators.{
  create, disable_one, assign, revoke, remove, run, run-Administered,
}

-- One administrator, and a role that nobody has.
abbrev one_administrator : Db
one_administrator = record {
  users = new_user 1 2 none 3 ∷ [];
  roles = record { id = 10; key = administrator } ∷ record { id = 11; key = other_key 0 } ∷ [];
  user_roles = record { user_id = 1; role_id = 10; assigned_by_user_id = 1 } ∷ [];
  sessions = [];
  refresh_tokens = [];
  audit = [];
}

one_administrator-Administered : Administered one_administrator
unfolding count count_active joined
one_administrator-Administered = record {
  well_formed = record {
    users_unique = (tt, tt);
    roles_unique = ((refl, tt), (tt, tt));
    once = λ u r. ground arith;
    admin = 10;
    only = λ r. ground arith;
  };
  remains = omega arith;
}

-- The administrator is to lose the role and to be disabled, before and after a second one is made.
run-Administered_example : Administered (
    run
      (remove 1 administrator 1
        ∷ disable_one 50 1 1
        ∷ create 4 5 none 6 1
        ∷ assign 4 administrator 1
        ∷ revoke 51 4 1
        ∷ disable_one 52 1 4
        ∷ [])
      one_administrator)
run-Administered_example =
    run-Administered
      (remove 1 administrator 1
        ∷ disable_one 50 1 1
        ∷ create 4 5 none 6 1
        ∷ assign 4 administrator 1
        ∷ revoke 51 4 1
        ∷ disable_one 52 1 4
        ∷ [])
      one_administrator one_administrator-Administered
