-- ===== src/Backend/Access.antt =====
-- `UserAdministrationService` of backend/src/wto_backend/services/rbac.py. Identifiers, times, names
-- and hashes are naturals; the key `administrator` of a role is apart from the others. A method that
-- raises commits nothing; the advisory lock and the row locks make the methods a sequence.

mod Tables
pub mod Counting
pub mod Keeps
pub mod Removal
pub mod Administrators
mod Tests
pub use Tables.{
  RoleKey, User, Role, UserRole, Reason, AuthSession, RefreshToken, Action, AuditOutcome, AuditLog,
  Db, Error, Result, key_number, same_key, administrator, other_key, user_disabled,
  administrator_revocation, refresh_reuse, session_invalid, logged_out, all_logged_out,
  password_changed, user_create, user_disable, user_role_assign, session_revoke, user_role_remove,
  auth_login, auth_refresh_reuse, auth_refresh, auth_logout, auth_logout_all, auth_password_change,
  success, failure, denied, conflict, resource_not_found, last_administrator, integrity, ok, err,
}
use wi_fi_test_orchestrator.Prelude.{
  ℕ, zero, suc, ◌+◌, ◌≡◌, Bool, true, false, not, ◌&&◌, ◌||◌, Option, none, some, List, [], ◌∷◌,
  ◌++◌, ◌==◌, leb, is_none, is_some, if◌then◌else◌,
}
use wi_fi_test_orchestrator.Prelude.Table.{find, count, update, delete}

abbrev pub user_id_is : ℕ → User → Bool
user_id_is id user = user.id == id

abbrev pub role_key_is : RoleKey → Role → Bool
role_key_is key role = same_key role.key key

-- `UserRole.user_id == user_id, UserRole.role_id == role_id`
abbrev pub assignment : ℕ → ℕ → UserRole → Bool
assignment user_id role_id row = row.user_id == user_id && row.role_id == role_id

-- The roles that a row of user_roles joins to, with the key `administrator`.
abbrev pub administrator_role : ℕ → Role → Bool
administrator_role role_id role = role.id == role_id && same_key role.key administrator

-- The rows that one user has in the join of the three tables.
unfoldable pub joined : List Role → List UserRole → ℕ → ℕ
joined roles [] user_id = 0
joined roles (row ∷ rows) user_id =
    (if row.user_id == user_id then count (administrator_role row.role_id) roles else 0)
    + joined roles rows user_id

unfoldable pub count_active : List Role → List UserRole → List User → ℕ
unfolding joined
count_active roles user_roles [] = 0
count_active roles user_roles (user ∷ users) =
    (if user.is_active then joined roles user_roles user.id else 0)
    + count_active roles user_roles users

-- `_active_administrator_count`
abbrev pub active_administrator_count : Db → ℕ
active_administrator_count db = count_active db.roles db.user_roles db.users

-- `_is_administrator`: `any` over the roles that the rows of the user join to.
unfoldable pub is_administrator : List Role → List UserRole → ℕ → Bool
is_administrator roles [] user_id = false
is_administrator roles (row ∷ rows) user_id =
    (row.user_id == user_id && is_some (find (administrator_role row.role_id) roles))
    || is_administrator roles rows user_id

abbrev pub write_audit : ℕ → Action → ℕ → Option RoleKey → Db → Db
write_audit actor_id action resource_id role_key db = record db {
  audit =
      db.audit
      ++ record {
        actor_id = some actor_id;
        action = action;
        resource_id = some resource_id;
        outcome = success;
        role_key = role_key;
      }
        ∷ [];
}

-- The sessions of a user that are not revoked.
abbrev pub live_session : ℕ → AuthSession → Bool
live_session user_id session = session.user_id == user_id && is_none session.revoked_at

abbrev pub revoke_live : ℕ → Reason → ℕ → List AuthSession → List AuthSession
revoke_live now reason user_id sessions =
    update (live_session user_id)
      (λ session. record session { revoked_at = some now; revocation_reason = some reason })
      sessions

abbrev pub new_user : ℕ → ℕ → Option ℕ → ℕ → User
new_user id normalized email password_hash = record {
  id = id;
  username = normalized;
  email = email;
  password_hash = password_hash;
  is_active = true;
  must_change_password = true;
  auth_version = 1;
  disabled_at = none;
  last_login_at = none;
}

-- A row of the partial unique index on email, for an email that is not null.
abbrev pub same_email : Option ℕ → Option ℕ → Bool
same_email (some a) (some b) = a == b
same_email _ _ = false

abbrev pub email_taken : Option ℕ → List User → Bool
email_taken email users = is_some (find (λ u. same_email email u.email) users)

-- `create_user`, from the normalised name and the hash of the password on.
unfoldable pub create_user : ℕ → ℕ → Option ℕ → ℕ → ℕ → Db → Result User × Db
create_user id normalized email password_hash actor_id db =
    if is_some (find (λ u. u.username == normalized) db.users)
    then (err conflict, db)
    else if is_some (find (user_id_is id) db.users) || email_taken email db.users
    then (err integrity, db)
    else (
      ok (new_user id normalized email password_hash),
      write_audit actor_id user_create id none
          (record db { users = db.users ++ new_user id normalized email password_hash ∷ [] }),
    )

abbrev pub disable : ℕ → User → User
disable now user = record user {
  is_active = false;
  disabled_at = some now;
  auth_version = user.auth_version + 1;
}

unfoldable pub disable_found : ℕ → ℕ → Option User → Db → Result (Unit {0}) × Db
disable_found now actor_id none db = (err resource_not_found, db)
disable_found now actor_id (some user) db =
    if is_administrator db.roles db.user_roles user.id && leb (active_administrator_count db) 1
    then (err last_administrator, db)
    else (
      ok tt,
      write_audit actor_id user_disable user.id none (record db {
        users = update (user_id_is user.id) (disable now) db.users;
        sessions = revoke_live now user_disabled user.id db.sessions;
      }),
    )

unfoldable pub disable_user : ℕ → ℕ → ℕ → Db → Result (Unit {0}) × Db
unfolding disable_found
disable_user now user_id actor_id db =
    disable_found now actor_id (find (user_id_is user_id) db.users) db

unfoldable pub assign_found : ℕ → Option User → Option Role → Db → Result (Unit {0}) × Db
assign_found actor_id (some user) (some role) db =
    if is_some (find (assignment user.id role.id) db.user_roles) then (ok tt, db) else (
      ok tt,
      write_audit actor_id user_role_assign user.id (some role.key) (record db {
        user_roles =
            db.user_roles
            ++ record { user_id = user.id; role_id = role.id; assigned_by_user_id = actor_id } ∷ [];
      }),
    )
assign_found actor_id _ _ db = (err resource_not_found, db)

unfoldable pub assign_role : ℕ → RoleKey → ℕ → Db → Result (Unit {0}) × Db
unfolding assign_found
assign_role user_id role_key actor_id db =
    assign_found actor_id (find (user_id_is user_id) db.users)
      (find (role_key_is role_key) db.roles) db

unfoldable pub revoke_found : ℕ → ℕ → Option User → Db → Result (Unit {0}) × Db
revoke_found now actor_id none db = (err resource_not_found, db)
revoke_found now actor_id (some user) db = (
  ok tt,
  write_audit actor_id session_revoke user.id none (record db {
    users =
        update (user_id_is user.id) (λ u. record u { auth_version = u.auth_version + 1 }) db.users;
    sessions = revoke_live now administrator_revocation user.id db.sessions;
  }),
)

unfoldable pub revoke_sessions : ℕ → ℕ → ℕ → Db → Result (Unit {0}) × Db
unfolding revoke_found
revoke_sessions now user_id actor_id db =
    revoke_found now actor_id (find (user_id_is user_id) db.users) db

unfoldable pub remove_found : RoleKey → ℕ → Option User → Option Role → Db → Result (Unit {0}) × Db
remove_found role_key actor_id (some user) (some role) db =
    if same_key role_key administrator && user.is_active && leb (active_administrator_count db) 1
    then (err last_administrator, db)
    else let db' = record db { user_roles = delete (assignment user.id role.id) db.user_roles } in
      if is_some (find (assignment user.id role.id) db.user_roles)
      then (ok tt, write_audit actor_id user_role_remove user.id (some role.key) db')
      else (ok tt, db')
remove_found role_key actor_id _ _ db = (err resource_not_found, db)

unfoldable pub remove_role : ℕ → RoleKey → ℕ → Db → Result (Unit {0}) × Db
unfolding remove_found
remove_role user_id role_key actor_id db =
    remove_found role_key actor_id (find (user_id_is user_id) db.users)
      (find (role_key_is role_key) db.roles) db
