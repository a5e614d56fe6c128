-- ===== src/Backend/Access/Removal.antt =====
-- `remove_role` keeps the constraints of the schema and an active administrator.
use wi_fi_test_orchestrator.Prelude.{
  ℕ, ◌≤◌, ◌≡◌, false, ◌&&◌, Option, none, some, List, arith, ◌==◌, leb, is_some, Bool-cases, inl,
  inr, sym,
}
use wi_fi_test_orchestrator.Prelude.Table.{find, count, delete, find-eq-some, count-delete}
use wi_fi_test_orchestrator.Prelude.Unique.{Unique, count-eq-find, find-key}
use wi_fi_test_orchestrator.Backend.Access.{
  RoleKey, administrator, same_key, User, Role, Db, Action, user_role_remove, write_audit,
  role_key_is, user_id_is, assignment, administrator_role, joined, active_administrator_count,
  remove_found,
}
use wi_fi_test_orchestrator.Backend.Access.Counting.{
  user_key, joined-delete, joined-delete_other, count_active-joined, count_active-but_one,
  count_active-inactive,
}
use wi_fi_test_orchestrator.Backend.Access.Keeps.{role_id, Administered, joined-le}

-- A role that is found by another key is not the administrator's.
other_role :
    (key : RoleKey) (roles : List Role) (role : Role)
    → Unique role_id roles
    → find (role_key_is key) roles ≡ some role
    → same_key key administrator ≡ false
    → count (administrator_role role.id) roles ≡ 0
other_role key roles role u h off =
    rw
      (
        count-eq-find role_id role.id (λ r. same_key r.key administrator) roles u,
        find-key role_id (role_key_is key) roles role u h,
      )
      (ground (arith, off, find-eq-some (role_key_is key) roles role h))

-- The entries of the audit are not counted.
audited :
    (actor : ℕ) (action : Action) (resource : ℕ) (key : Option RoleKey) (db : Db)
    → Administered db
    → Administered (write_audit actor action resource key db)
audited actor action resource key db inv = record {
  well_formed = record {
    users_unique = inv.well_formed.users_unique;
    roles_unique = inv.well_formed.roles_unique;
    once = inv.well_formed.once;
    admin = inv.well_formed.admin;
    only = inv.well_formed.only;
  };
  remains = inv.remains;
}

abbrev without : ℕ → ℕ → Db → Db
without u r db = record db { user_roles = delete (assignment u r) db.user_roles }

remains-without :
    (key : RoleKey) (user : User) (role : Role) (db : Db) (user_id : ℕ)
    → find (user_id_is user_id) db.users ≡ some user
    → find (role_key_is key) db.roles ≡ some role
    → (same_key key administrator && user.is_active && leb (active_administrator_count db) 1)
      ≡ false
    → Administered db
    → 1 ≤ active_administrator_count (without user.id role.id db)
remains-without key user role db user_id h g e inv =
    elim (Bool-cases (same_key key administrator)) [
      | inl admin ↦ elim (Bool-cases user.is_active) [
        | inl active ↦ ground (
          arith,
          e,
          admin,
          active,
          inv.remains,
          joined-le db user.id inv.well_formed,
          count_active-but_one db.roles db.user_roles (without user.id role.id db).user_roles
              user.id db.users one_user inv.well_formed.users_unique,
        )
        | inr inactive ↦
            rw
              (sym (
                count_active-inactive db.roles db.user_roles (without user.id role.id db).user_roles
                  user.id db.users user one_user inv.well_formed.users_unique
                  (find-key user_key (user_id_is user_id) db.users user inv.well_formed.users_unique
                    h)
                  inactive))
              inv.remains
      ]
      | inr other ↦ omega (
        arith,
        inv.remains,
        count_active-joined db.roles db.user_roles (without user.id role.id db).user_roles db.users
            (λ k. omega (
              arith,
              joined-delete_other db.roles db.user_roles user.id role.id k
                  (other_role key db.roles role inv.well_formed.roles_unique g other),
            )),
      )
    ]
  where
    one_user :
        (i : ℕ)
        → (i == user.id) ≡ false
        → joined db.roles (without user.id role.id db).user_roles i
          ≡ joined db.roles db.user_roles i
    one_user i off = joined-delete db.roles db.user_roles user.id role.id i off

pub remove_found-Administered :
    (key : RoleKey) (actor : ℕ) (o : Option User) (p : Option Role) (db : Db) (user_id : ℕ)
    → find (user_id_is user_id) db.users ≡ o
    → find (role_key_is key) db.roles ≡ p
    → Administered db
    → Administered (remove_found key actor o p db).1
unfolding remove_found
remove_found-Administered key actor none p db user_id h g inv = inv
remove_found-Administered key actor (some user) none db user_id h g inv = inv
remove_found-Administered key actor (some user) (some role) db user_id h g inv =
    elim (Bool-cases
      (same_key key administrator && user.is_active && leb (active_administrator_count db) 1)) [
        | inl e ↦ rw e inv
        | inr e ↦ elim (Bool-cases (is_some (find (assignment user.id role.id) db.user_roles))) [
          | inl e' ↦
              rw (e, e')
                (audited actor user_role_remove user.id (some role.key) (without user.id role.id db)
                  (kept e))
          | inr e' ↦ rw (e, e') (kept e)
        ]
      ]
  where
    kept :
        (same_key key administrator && user.is_active && leb (active_administrator_count db) 1)
          ≡ false
        → Administered (without user.id role.id db)
    kept e = record {
      well_formed = record {
        users_unique = inv.well_formed.users_unique;
        roles_unique = inv.well_formed.roles_unique;
        once = λ u r. omega (
          arith,
          inv.well_formed.once u r,
          count-delete (assignment user.id role.id) (assignment u r) db.user_roles,
        );
        admin = inv.well_formed.admin;
        only = inv.well_formed.only;
      };
      remains = remains-without key user role db user_id h g e inv;
    }
