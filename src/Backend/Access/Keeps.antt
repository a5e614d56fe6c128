-- ===== src/Backend/Access/Keeps.antt =====
-- Each method of the service keeps the constraints of the schema and an active administrator.
use wi_fi_test_orchestrator.Prelude.{
  ◌||◌, ℕ, ◌+◌, ◌≤◌, ◌≡◌, refl, ◌&&◌, Option, none, some, List, [], ◌∷◌, arith, ◌==◌, ==_iff, leb,
  is_some, if◌then◌else◌, Bool-cases, inl, inr, sym,
}
use wi_fi_test_orchestrator.Prelude.Table.{find, count, find-eq-none, count-append}
use wi_fi_test_orchestrator.Prelude.Unique.{Unique, Unique-append, Unique-update}
use wi_fi_test_orchestrator.Backend.Access.{
  User, Role, UserRole, Db, user_id_is, assignment, administrator_role, joined,
  active_administrator_count, is_administrator, new_user, create_user, email_taken, disable,
  disable_found, assign_found, revoke_found,
}
use wi_fi_test_orchestrator.Backend.Access.Counting.{
  user_key, is_administrator-joined, joined-count, joined-append, count_active-joined,
  count_active-disable, count_active-update, count_active-append,
}

abbrev pub role_id : Role → ℕ
role_id role = role.id

-- The constraints of the schema: the primary keys of users and roles, the unique pair of a user and
-- a role, and the one role with the key `administrator`.
pub record WellFormed (db : Db) : Type 0 where
  pub users_unique : Unique user_key db.users
  pub roles_unique : Unique role_id db.roles
  pub once : (u r : ℕ) → count (assignment u r) db.user_roles ≤ 1
  pub admin : ℕ
  pub only : (r : ℕ) → count (administrator_role r) db.roles ≡ (if r == admin then 1 else 0)

-- The invariant.
pub record Administered (db : Db) : Type 0 where
  pub well_formed : WellFormed db
  pub remains : 1 ≤ active_administrator_count db

pub joined-le : (db : Db) (k : ℕ) → WellFormed db → joined db.roles db.user_roles k ≤ 1
joined-le db k w = rw (joined-count db.roles w.admin db.user_roles k w.only) (w.once k w.admin)

pub create_user-Administered :
    (id name : ℕ) (email : Option ℕ) (hash actor : ℕ) (db : Db)
    → Administered db
    → Administered (create_user id name email hash actor db).1
unfolding create_user
create_user-Administered id name email hash actor db inv =
    elim (Bool-cases (is_some (find (λ (u : User). u.username == name) db.users))) [
      | inl e ↦ rw e inv
      | inr e ↦
          elim (Bool-cases
            (is_some (find (user_id_is id) db.users) || email_taken email db.users)) [
              | inl e' ↦ rw (e, e') inv
              | inr e' ↦
                  rw (e, e')
                    (record {
                      well_formed = record {
                        users_unique =
                            Unique-append user_key db.users (new_user id name email hash)
                              inv.well_formed.users_unique (ground (arith, e'));
                        roles_unique = inv.well_formed.roles_unique;
                        once = inv.well_formed.once;
                        admin = inv.well_formed.admin;
                        only = inv.well_formed.only;
                      };
                      remains = omega (
                        arith,
                        inv.remains,
                        count_active-append db.roles db.user_roles db.users
                            (new_user id name email hash ∷ []),
                      );
                    })
            ]
    ]

pub disable_found-Administered :
    (now actor : ℕ) (o : Option User) (db : Db)
    → Administered db
    → Administered (disable_found now actor o db).1
unfolding disable_found
disable_found-Administered now actor none db inv = inv
disable_found-Administered now actor (some user) db inv =
    elim (Bool-cases
      (is_administrator db.roles db.user_roles user.id && leb (active_administrator_count db) 1)) [
        | inl e ↦ rw e inv
        | inr e ↦ rw e (record {
          well_formed = record {
            users_unique =
                Unique-update user_key (user_id_is user.id) (disable now) db.users (λ x. refl)
                  inv.well_formed.users_unique;
            roles_unique = inv.well_formed.roles_unique;
            once = inv.well_formed.once;
            admin = inv.well_formed.admin;
            only = inv.well_formed.only;
          };
          remains = ground (
            arith,
            e,
            inv.remains,
            joined-le db user.id inv.well_formed,
            is_administrator-joined db.roles db.user_roles user.id,
            count_active-disable db.roles db.user_roles now user.id db.users
                inv.well_formed.users_unique,
          );
        })
      ]

pub revoke_found-Administered :
    (now actor : ℕ) (o : Option User) (db : Db)
    → Administered db
    → Administered (revoke_found now actor o db).1
unfolding revoke_found
revoke_found-Administered now actor none db inv = inv
revoke_found-Administered now actor (some user) db inv = record {
  well_formed = record {
    users_unique =
        Unique-update user_key (user_id_is user.id)
          (λ u. record u { auth_version = u.auth_version + 1 }) db.users (λ x. refl)
          inv.well_formed.users_unique;
    roles_unique = inv.well_formed.roles_unique;
    once = inv.well_formed.once;
    admin = inv.well_formed.admin;
    only = inv.well_formed.only;
  };
  remains =
      rw
        (count_active-update db.roles db.user_roles (user_id_is user.id)
          (λ u. record u { auth_version = u.auth_version + 1 }) db.users (λ x. refl) (λ x. refl))
        inv.remains;
}

once-assigned :
    (rows : List UserRole) (uid rid u r : ℕ)
    → find (assignment uid rid) rows ≡ none
    → count (assignment u r) rows ≤ 1
    → count (assignment u r) rows + (if uid == u && rid == r then 1 else 0) ≤ 1
once-assigned rows uid rid u r h once = elim (Bool-cases (uid == u && rid == r)) [
  | inl e ↦
      rw
        (
          sym ((==_iff uid u).0 (ground (arith, e))),
          sym ((==_iff rid r).0 (ground (arith, e))),
          find-eq-none (assignment uid rid) rows h,
        )
        (ground arith)
  | inr e ↦ rw e (omega (arith, once))
]

pub assign_found-Administered :
    (actor : ℕ) (o : Option User) (p : Option Role) (db : Db)
    → Administered db
    → Administered (assign_found actor o p db).1
unfolding assign_found count
assign_found-Administered actor none p db inv = inv
assign_found-Administered actor (some user) none db inv = inv
assign_found-Administered actor (some user) (some role) db inv =
    elim (Bool-cases (is_some (find (assignment user.id role.id) db.user_roles))) [
      | inl e ↦ rw e inv
      | inr e ↦ rw e (record {
        well_formed = record {
          users_unique = inv.well_formed.users_unique;
          roles_unique = inv.well_formed.roles_unique;
          once = λ u r. rw (count-append (assignment u r) db.user_roles) (
              ground (
                arith,
                once-assigned db.user_roles user.id role.id u r (ground (arith, e))
                    (inv.well_formed.once u r),
              ));
          admin = inv.well_formed.admin;
          only = inv.well_formed.only;
        };
        remains = omega (
          arith,
          inv.remains,
          count_active-joined db.roles db.user_roles _ db.users
              (joined-append db.roles db.user_roles _),
        );
      })
    ]
