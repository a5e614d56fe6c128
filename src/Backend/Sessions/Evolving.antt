-- ===== src/Backend/Sessions/Evolving.antt =====
-- Each method of `AuthService` takes nothing back, and no sequence of calls does.
use wi_fi_test_orchestrator.Prelude.{
  ℕ, refl, not, ◌||◌, Option, none, some, List, [], ◌∷◌, arith, ◌==◌, leb, is_some, Bool-cases, inl,
  inr,
}
use wi_fi_test_orchestrator.Prelude.Table.{update}
use wi_fi_test_orchestrator.Backend.Access.{
  User, AuthSession, RefreshToken, Reason, Action, Db, user_id_is, refresh_reuse, session_invalid,
  logged_out, auth_password_change, password_changed, auth_logout_all, all_logged_out,
}
use wi_fi_test_orchestrator.Backend.Sessions.Secrets.{Password, verify_password, hash_password}
use wi_fi_test_orchestrator.Backend.Sessions.{
  AuthService, Drawn, login, login_found, open_session, revoke_family, refresh, refresh_found,
  refresh_session, refresh_family, rotate, logout, logout_found, logout_all, logout_locked,
  change_password, change_found, store_password, session_taken, token_taken, invalid_family,
  set_password, token_id_is, consume,
}
use wi_fi_test_orchestrator.Backend.Sessions.Calls.{
  Call, log_in, refresh_with, log_out, log_out_all, change_one, administer, call, calls,
}
use wi_fi_test_orchestrator.Backend.Sessions.Evolution.{
  Evolves, Evolves-same, Evolves-trans, users_update, users_same, sessions_update, sessions_same,
  sessions_append, tokens_update, tokens_same, tokens_append,
}
use wi_fi_test_orchestrator.Backend.Sessions.Administered.{
  unchanged, bump-Evolves, administer-Evolves,
}

pub login_found-Evolves :
    (service : AuthService) (drawn : Drawn) (now : ℕ) (password : Password) (o : Option User)
    (db : Db)
    → Evolves db (login_found service drawn now password o db).1
unfolding login_found open_session
login_found-Evolves service drawn now password none db = unchanged db _ refl refl refl
login_found-Evolves service drawn now password (some user) db =
    elim (Bool-cases (
      not (verify_password service.passwords drawn.salt password user.password_hash).0
      || not user.is_active)) [
        | inl e ↦ rw e (unchanged db _ refl refl refl)
        | inr e ↦
            elim (Bool-cases (
              session_taken drawn.session_id db
              || token_taken drawn.token_id (service.tokens.sha256 drawn.refresh_plaintext) db)) [
                | inl e' ↦ rw (e, e') (Evolves-same db)
                | inr e' ↦
                    rw (e, e')
                      (record {
                        users = users_update _ _ db.users (λ key x. refl) (λ x. omega arith);
                        sessions = sessions_append db.sessions _;
                        tokens = tokens_append db.refresh_tokens _;
                      })
              ]
      ]

pub revoke_family-Evolves :
    (now : ℕ) (reason : Reason) (family : AuthSession) (db : Db)
    → Evolves db (revoke_family now reason family db)
unfolding revoke_family
revoke_family-Evolves now reason family db = record {
  users = users_same db.users;
  sessions =
      sessions_update _ _ db.sessions (λ key x. refl)
        (λ x. record { owner = refl; stays_revoked = λ h. refl });
  tokens =
      tokens_update _ _ db.refresh_tokens (λ key x. refl)
        (λ x. record { family = refl; stays_consumed = λ h. h });
}

pub rotate-Evolves :
    (service : AuthService) (drawn : Drawn) (now : ℕ) (token : RefreshToken) (family : AuthSession)
    (user : User) (db : Db)
    → Evolves db (rotate service drawn now token family user db).1
unfolding rotate
rotate-Evolves service drawn now token family user db =
    Evolves-trans db
      (record db {
        refresh_tokens =
            update (token_id_is token.id) (consume now drawn.token_id) db.refresh_tokens;
      })
      _
      (record {
        users = users_same db.users;
        sessions = sessions_same db.sessions;
        tokens =
            tokens_update _ _ db.refresh_tokens (λ key x. refl)
              (λ x. record { family = refl; stays_consumed = λ h. refl });
      })
      (record {
        users = users_same db.users;
        sessions =
            sessions_update _ _ db.sessions (λ key x. refl)
              (λ x. record { owner = refl; stays_revoked = λ h. h });
        tokens = tokens_append _ _;
      })

refresh_family-Evolves :
    (service : AuthService) (drawn : Drawn) (now : ℕ) (token : RefreshToken) (family : AuthSession)
    (o : Option User) (db : Db)
    → Evolves db (refresh_family service drawn now token family o db).1
unfolding refresh_family
refresh_family-Evolves service drawn now token family none db = Evolves-same db
refresh_family-Evolves service drawn now token family (some user) db =
    elim (Bool-cases (is_some token.consumed_at)) [
      | inl e ↦ rw e (
          Evolves-trans db _ _ (revoke_family-Evolves now refresh_reuse family db)
            (unchanged _ _ refl refl refl))
      | inr e ↦
          elim (Bool-cases (
            invalid_family now family user
            || is_some token.revoked_at
            || leb token.expires_at now)) [
              | inl e' ↦ rw (e, e') (revoke_family-Evolves now session_invalid family db)
              | inr e' ↦
                  elim (Bool-cases (
                    token_taken drawn.token_id (service.tokens.sha256 drawn.refresh_plaintext)
                      db)) [
                        | inl e'' ↦ rw (e, e', e'') (Evolves-same db)
                        | inr e'' ↦
                            rw (e, e', e'') (rotate-Evolves service drawn now token family user db)
                      ]
            ]
    ]

refresh_session-Evolves :
    (service : AuthService) (drawn : Drawn) (now : ℕ) (token : RefreshToken)
    (o : Option AuthSession) (db : Db)
    → Evolves db (refresh_session service drawn now token o db).1
unfolding refresh_session
refresh_session-Evolves service drawn now token none db = Evolves-same db
refresh_session-Evolves service drawn now token (some family) db =
    refresh_family-Evolves service drawn now token family _ db

refresh_found-Evolves :
    (service : AuthService) (drawn : Drawn) (now : ℕ) (o : Option RefreshToken) (db : Db)
    → Evolves db (refresh_found service drawn now o db).1
unfolding refresh_found
refresh_found-Evolves service drawn now none db = Evolves-same db
refresh_found-Evolves service drawn now (some token) db =
    refresh_session-Evolves service drawn now token _ db

logout_found-Evolves :
    (now user_id : ℕ) (o : Option AuthSession) (db : Db)
    → Evolves db (logout_found now user_id o db)
unfolding logout_found
logout_found-Evolves now user_id none db = Evolves-same db
logout_found-Evolves now user_id (some session) db =
    elim (Bool-cases (session.user_id == user_id)) [
      | inl e ↦ rw e (
          Evolves-trans db _ _ (revoke_family-Evolves now logged_out session db)
            (unchanged _ _ refl refl refl))
      | inr e ↦ rw e (Evolves-same db)
    ]

logout_locked-Evolves :
    (now : ℕ) (action : Action) (reason : Reason) (o : Option User) (db : Db)
    → Evolves db (logout_locked now action reason o db).1
unfolding logout_locked
logout_locked-Evolves now action reason none db = Evolves-same db
logout_locked-Evolves now action reason (some user) db =
    bump-Evolves now reason user.id _ db _ (λ x. refl) (λ x. refl) refl refl refl

store_password-Evolves :
    (now user_id : ℕ) (o : Option ℕ) (db : Db) → Evolves db (store_password now user_id o db).1
unfolding store_password
store_password-Evolves now user_id none db = Evolves-same db
store_password-Evolves now user_id (some hash) db =
    Evolves-trans db
      (record db { users = update (user_id_is user_id) (set_password hash) db.users }) _
      (record {
        users = users_update _ _ db.users (λ key x. refl) (λ x. omega arith);
        sessions = sessions_same db.sessions;
        tokens = tokens_same db.refresh_tokens;
      })
      (logout_locked-Evolves now auth_password_change password_changed _ _)

change_found-Evolves :
    (service : AuthService) (salt now : ℕ) (current new : Password) (o : Option User) (db : Db)
    → Evolves db (change_found service salt now current new o db).1
unfolding change_found
change_found-Evolves service salt now current new none db = Evolves-same db
change_found-Evolves service salt now current new (some locked) db =
    elim (Bool-cases
      (not (verify_password service.passwords salt current locked.password_hash).0)) [
        | inl e ↦ rw e (Evolves-same db)
        | inr e ↦
            rw e
              (store_password-Evolves now locked.id (hash_password service.passwords salt new) db)
      ]

pub call-Evolves : (service : AuthService) (c : Call) (db : Db) → Evolves db (call service c db)
unfolding call login refresh logout logout_all change_password
call-Evolves service (log_in drawn now name password) db =
    login_found-Evolves service drawn now password _ db
call-Evolves service (refresh_with drawn now token) db =
    refresh_found-Evolves service drawn now _ db
call-Evolves service (log_out now user_id session_id) db = logout_found-Evolves now user_id _ db
call-Evolves service (log_out_all now user_id) db =
    logout_locked-Evolves now auth_logout_all all_logged_out _ db
call-Evolves service (change_one salt now user_id current new) db =
    change_found-Evolves service salt now current new _ db
call-Evolves service (administer op) db = administer-Evolves op db

pub calls-Evolves :
    (service : AuthService) (cs : List Call) (db : Db) → Evolves db (calls service cs db)
unfolding calls
calls-Evolves service [] db = Evolves-same db
calls-Evolves service (c ∷ cs) db =
    Evolves-trans db (call service c db) (calls service (c ∷ cs) db) (call-Evolves service c db)
      (calls-Evolves service cs (call service c db))
