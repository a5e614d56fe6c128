-- ===== src/Backend/Sessions/Versions.antt =====
-- The version of a user, by which earlier access claims are refused.
use wi_fi_test_orchestrator.Prelude.{
  ℕ, suc, ◌+◌, ◌≤◌, ◌≡◌, refl, true, false, not, Option, none, some, List, arith, ==_refl, ==_iff,
  Bool-cases, inl, inr,
}
use wi_fi_test_orchestrator.Prelude.Table.{find, update, find-update, find-eq-some}
use wi_fi_test_orchestrator.Backend.Access.{
  User, AuthSession, Db, user_id_is, revoke_sessions, revoke_found,
}
use wi_fi_test_orchestrator.Backend.Sessions.Secrets.{
  AccessClaims, validate_password, Password, hash_password, verify_password,
}
use wi_fi_test_orchestrator.Backend.Sessions.{
  AuthService, ok, err, invalid_session, authenticate_access, authenticate_found, logout_all,
  logout_locked, change_password, change_found, store_password, set_password,
}
use wi_fi_test_orchestrator.Backend.Sessions.Calls.{Call, calls}
use wi_fi_test_orchestrator.Backend.Sessions.Evolving.{calls-Evolves}

-- The claims are of an earlier version of their user.
pub record Outdated (claims : AccessClaims) (db : Db) : Type 0 where
  pub row : User
  pub found : find (user_id_is claims.user_id) db.users ≡ some row
  pub older : suc claims.auth_version ≤ row.auth_version

authenticate_found-Outdated :
    (now : ℕ) (claims : AccessClaims) (user : User) (o : Option AuthSession)
    → suc claims.auth_version ≤ user.auth_version
    → authenticate_found now claims (some user) o ≡ err invalid_session
unfolding authenticate_found
authenticate_found-Outdated now claims user none h = refl
authenticate_found-Outdated now claims user (some session) h = ground (arith, h)

calls-Outdated :
    (service : AuthService) (cs : List Call) (now : ℕ) (claims : AccessClaims) (db : Db)
    → Outdated claims db
    → authenticate_access now claims (calls service cs db) ≡ err invalid_session
unfolding authenticate_access
calls-Outdated service cs now claims db o =
    let kept = (calls-Evolves service cs db).users claims.user_id o.row o.found in
    rw kept.found (
      authenticate_found-Outdated now claims kept.row _
        (omega (arith, o.older, kept.later.version)))

-- A raise of the version makes the claims outdated that were not ahead of it.
raised :
    (claims : AccessClaims) (user : User) (f : User → User) (db db' : Db)
    → find (user_id_is claims.user_id) db.users ≡ some user
    → ((x : User) → (f x).id ≡ x.id)
    → (f user).auth_version ≡ user.auth_version + 1
    → claims.auth_version ≤ user.auth_version
    → db'.users ≡ update (user_id_is claims.user_id) f db.users
    → Outdated claims db'
raised claims user f db db' u keep bump h e = record {
  row = f user;
  found =
      rw
        (
          e,
          find-update (user_id_is claims.user_id) (user_id_is claims.user_id) f db.users
              (λ x. rw (keep x) refl),
          u,
          find-eq-some (user_id_is claims.user_id) db.users user u,
        )
        refl;
  older = omega (arith, bump, h);
}

same_user :
    (id : ℕ) (user : User) (db : Db) → find (user_id_is id) db.users ≡ some user → user.id ≡ id
same_user id user db u = (==_iff user.id id).0 (find-eq-some (user_id_is id) db.users user u)

-- Access claims whose version is at most the version of the user's row are refused at any time,
-- whatever calls follow, once the user has logged out of all sessions, and once an administrator has
-- revoked the user's sessions.
pub logout_all-Outdated :
    (service : AuthService) (cs : List Call) (now later actor_id : ℕ) (claims : AccessClaims)
    (user : User) (db : Db)
    → find (user_id_is claims.user_id) db.users ≡ some user
    → claims.auth_version ≤ user.auth_version
    → (authenticate_access later claims (calls service cs (logout_all now claims.user_id db).1)
        ≡ err invalid_session)
      × (authenticate_access later claims
            (calls service cs (revoke_sessions now claims.user_id actor_id db).1)
          ≡ err invalid_session)
unfolding logout_all logout_locked revoke_sessions revoke_found
logout_all-Outdated service cs now later actor_id claims user db u h = (
  calls-Outdated service cs later claims _ (
      rw (u, same_user claims.user_id user db u)
        (raised claims user (λ x. record x { auth_version = x.auth_version + 1 }) db _ u (λ x. refl)
          refl h refl)),
  calls-Outdated service cs later claims _ (
      rw (u, same_user claims.user_id user db u)
        (raised claims user (λ x. record x { auth_version = x.auth_version + 1 }) db _ u (λ x. refl)
          refl h refl)),
)

store_password-raises :
    (service : AuthService) (salt now : ℕ) (new : Password) (claims : AccessClaims) (user : User)
    (o : Option ℕ) (db : Db)
    → find (user_id_is claims.user_id) db.users ≡ some user
    → claims.auth_version ≤ user.auth_version
    → hash_password service.passwords salt new ≡ o
    → (store_password now claims.user_id o db).0 ≡ ok tt
    → (row : User) × (find
          (user_id_is claims.user_id)
          (store_password now claims.user_id o db).1.users
        ≡ some row)
      × (row.auth_version ≡ user.auth_version + 1)
      × (row.must_change_password ≡ false)
      × ((verify_password service.passwords salt new row.password_hash).0 ≡ true)
unfolding store_password logout_locked verify_password hash_password
store_password-raises service salt now new claims user none db u h e a = absurd (ground (arith, a))
store_password-raises service salt now new claims user (some password_hash) db u h e a =
    rw (changed, same_user claims.user_id user db u)
      (
        record (set_password password_hash user) { auth_version = user.auth_version + 1 },
        rw
            (
              find-update (user_id_is claims.user_id) (user_id_is claims.user_id)
                  (λ x. record x { auth_version = x.auth_version + 1 })
                  (update (user_id_is claims.user_id) (set_password password_hash) db.users)
                  (λ x. refl),
              changed,
              same_user claims.user_id user db u,
              ==_refl claims.user_id,
            )
            refl,
        refl,
        refl,
        elim (Bool-cases (validate_password new)) [
          | inl v ↦ rw (hashed v, service.passwords.verifies-hash salt new) refl
          | inr v ↦ absurd (ground (arith, e, v))
        ],
      )
  where
    changed :
        find
          (user_id_is claims.user_id)
          (update (user_id_is claims.user_id) (set_password password_hash) db.users)
        ≡ some (set_password password_hash user)
    changed =
        rw
          (
            find-update (user_id_is claims.user_id) (user_id_is claims.user_id)
                (set_password password_hash) db.users (λ x. refl),
            u,
            find-eq-some (user_id_is claims.user_id) db.users user u,
          )
          refl

    hashed : validate_password new ≡ true → password_hash ≡ service.passwords.hash salt new
    hashed v = ground (arith, e, v)

-- Once a change of a user's password was accepted, the user's version is one more, the password needs
-- no change, the stored hash verifies the new password, and access claims of the user that had no
-- later version than the user are refused at any time, whatever calls follow.
pub change_password-Outdated :
    (service : AuthService) (cs : List Call) (salt now later : ℕ) (current new : Password)
    (claims : AccessClaims) (user : User) (db : Db)
    → find (user_id_is claims.user_id) db.users ≡ some user
    → claims.auth_version ≤ user.auth_version
    → (change_password service salt now claims.user_id current new db).0 ≡ ok tt
    → let db' = (change_password service salt now claims.user_id current new db).1 in
      ((row : User) × (find (user_id_is claims.user_id) db'.users ≡ some row)
        × (row.auth_version ≡ user.auth_version + 1)
        × (row.must_change_password ≡ false)
        × ((verify_password service.passwords salt new row.password_hash).0 ≡ true))
      × (authenticate_access later claims (calls service cs db') ≡ err invalid_session)
unfolding change_password change_found
change_password-Outdated service cs salt now later current new claims user db u h a =
    elim (Bool-cases (not (verify_password service.passwords salt current user.password_hash).0)) [
      | inl e ↦ absurd (ground (arith, a, u, e))
      | inr e ↦
          let raise =
            store_password-raises service salt now new claims user
              (hash_password service.passwords salt new) db u h refl
              (ground (arith, a, u, e, same_user claims.user_id user db u)) in
          rw (u, e, same_user claims.user_id user db u)
            (
              raise,
              calls-Outdated service cs later claims
                  (store_password now claims.user_id (hash_password service.passwords salt new)
                    db).1
                  (record { row = raise.0; found = raise.1; older = omega (arith, raise.2, h) }),
            )
    ]
