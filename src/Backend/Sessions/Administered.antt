-- ===== src/Backend/Sessions/Administered.antt =====
-- Each method of the user administration takes nothing back.
use wi_fi_test_orchestrator.Prelude.{
  ◌||◌, ℕ, ◌+◌, ◌≡◌, refl, ◌&&◌, Option, none, some, List, arith, ◌==◌, leb, is_some, Bool-cases,
  inl, inr,
}
use wi_fi_test_orchestrator.Prelude.Table.{find, update}
use wi_fi_test_orchestrator.Backend.Access.{
  User, AuthSession, Role, is_administrator, active_administrator_count, assignment, same_key,
  administrator, disable, user_disabled, administrator_revocation, Reason, RoleKey, Db, revoke_live,
  user_id_is, create_user, email_taken, disable_user, disable_found, assign_role, assign_found,
  revoke_sessions, revoke_found, remove_role, remove_found,
}
use wi_fi_test_orchestrator.Backend.Access.Administrators.{
  create, disable_one, assign, revoke, remove,
}
use wi_fi_test_orchestrator.Backend.Access.Administrators
use wi_fi_test_orchestrator.Backend.Sessions.{session_id_is}
use wi_fi_test_orchestrator.Backend.Sessions.Evolution.{
  Keeps, LaterSession, Evolves, Evolves-same, users_update, users_same, users_append,
  sessions_update, sessions_same, tokens_same,
}

-- Tables whose users, sessions and tokens stay.
pub unchanged :
    (db db' : Db)
    → db'.users ≡ db.users
    → db'.sessions ≡ db.sessions
    → db'.refresh_tokens ≡ db.refresh_tokens
    → Evolves db db'
unchanged db db' u s t = record {
  users = rw u (users_same db.users);
  sessions = rw s (sessions_same db.sessions);
  tokens = rw t (tokens_same db.refresh_tokens);
}

revoke_live-Keeps :
    (now : ℕ) (reason : Reason) (user_id : ℕ) (xs : List AuthSession)
    → Keeps LaterSession session_id_is xs (revoke_live now reason user_id xs)
revoke_live-Keeps now reason user_id xs =
    sessions_update _ _ xs (λ key x. refl) (λ x. record { owner = refl; stays_revoked = λ h. refl })

create_user-Evolves :
    (id name : ℕ) (email : Option ℕ) (hash actor : ℕ) (db : Db)
    → Evolves db (create_user id name email hash actor db).1
unfolding create_user
create_user-Evolves id name email hash actor db =
    elim (Bool-cases (is_some (find (λ (u : User). u.username == name) db.users))) [
      | inl e ↦ rw e (Evolves-same db)
      | inr e ↦
          elim (Bool-cases
            (is_some (find (user_id_is id) db.users) || email_taken email db.users)) [
              | inl e' ↦ rw (e, e') (Evolves-same db)
              | inr e' ↦
                  rw (e, e')
                    (record {
                      users = users_append db.users _;
                      sessions = sessions_same db.sessions;
                      tokens = tokens_same db.refresh_tokens;
                    })
            ]
    ]

-- A change of the versions of a user, with the user's sessions revoked.
pub bump-Evolves :
    (now : ℕ) (reason : Reason) (user_id : ℕ) (f : User → User) (db db' : Db)
    → ((x : User) → (f x).id ≡ x.id)
    → ((x : User) → (f x).auth_version ≡ x.auth_version + 1)
    → db'.users ≡ update (user_id_is user_id) f db.users
    → db'.sessions ≡ revoke_live now reason user_id db.sessions
    → db'.refresh_tokens ≡ db.refresh_tokens
    → Evolves db db'
bump-Evolves now reason user_id f db db' keep bump u s t = record {
  users = rw u (
      users_update (user_id_is user_id) f db.users (λ key x. rw (keep x) refl)
        (λ x. omega (arith, bump x)));
  sessions = rw s (revoke_live-Keeps now reason user_id db.sessions);
  tokens = rw t (tokens_same db.refresh_tokens);
}

disable_found-Evolves :
    (now actor : ℕ) (o : Option User) (db : Db) → Evolves db (disable_found now actor o db).1
unfolding disable_found
disable_found-Evolves now actor none db = Evolves-same db
disable_found-Evolves now actor (some user) db =
    elim (Bool-cases
      (is_administrator db.roles db.user_roles user.id && leb (active_administrator_count db) 1)) [
        | inl e ↦ rw e (Evolves-same db)
        | inr e ↦ rw e (
            bump-Evolves now user_disabled user.id (disable now) db _ (λ x. refl) (λ x. refl) refl
              refl refl)
      ]

assign_found-Evolves :
    (actor : ℕ) (o : Option User) (r : Option Role) (db : Db)
    → Evolves db (assign_found actor o r db).1
unfolding assign_found
assign_found-Evolves actor (some user) (some role) db =
    elim (Bool-cases (is_some (find (assignment user.id role.id) db.user_roles))) [
      | inl e ↦ rw e (Evolves-same db)
      | inr e ↦ rw e (unchanged db _ refl refl refl)
    ]
assign_found-Evolves actor none r db = Evolves-same db
assign_found-Evolves actor (some user) none db = Evolves-same db

remove_found-Evolves :
    (key : RoleKey) (actor : ℕ) (o : Option User) (r : Option Role) (db : Db)
    → Evolves db (remove_found key actor o r db).1
unfolding remove_found
remove_found-Evolves key actor (some user) (some role) db =
    elim (Bool-cases
      (same_key key administrator && user.is_active && leb (active_administrator_count db) 1)) [
        | inl e ↦ rw e (Evolves-same db)
        | inr e ↦ elim (Bool-cases (is_some (find (assignment user.id role.id) db.user_roles))) [
          | inl e' ↦ rw (e, e') (unchanged db _ refl refl refl)
          | inr e' ↦ rw (e, e') (unchanged db _ refl refl refl)
        ]
      ]
remove_found-Evolves key actor none r db = Evolves-same db
remove_found-Evolves key actor (some user) none db = Evolves-same db

revoke_found-Evolves :
    (now actor : ℕ) (o : Option User) (db : Db) → Evolves db (revoke_found now actor o db).1
unfolding revoke_found
revoke_found-Evolves now actor none db = Evolves-same db
revoke_found-Evolves now actor (some user) db =
    bump-Evolves now administrator_revocation user.id _ db _ (λ x. refl) (λ x. refl) refl refl refl

pub administer-Evolves :
    (op : Administrators.Op) (db : Db) → Evolves db (Administrators.apply op db)
unfolding Administrators.apply disable_user assign_role revoke_sessions remove_role
administer-Evolves (create id name email hash actor) db =
    create_user-Evolves id name email hash actor db
administer-Evolves (disable_one now id actor) db = disable_found-Evolves now actor _ db
administer-Evolves (assign id key actor) db = assign_found-Evolves actor _ _ db
administer-Evolves (revoke now id actor) db = revoke_found-Evolves now actor _ db
administer-Evolves (remove id key actor) db = remove_found-Evolves key actor _ _ db
