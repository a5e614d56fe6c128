-- ===== src/Backend/Sessions.antt =====
-- `AuthService` of backend/src/wto_backend/services/auth.py, on the tables of Access. Names are
-- normalised before the call; fingerprints, correlation identifiers and client metadata are left out.
-- Times are in seconds. What the code draws (identifiers, a token, a salt) is an argument. The row
-- locks make the methods a sequence.
pub mod Secrets
pub mod Calls
pub mod Evolution
pub mod Administered
pub mod Evolving
pub mod Accepted
pub mod Revocation
pub mod Consumed
pub mod Reuse
pub mod Versions
pub mod Opening
pub mod Tokens
pub mod Untouched
pub mod Chains
pub mod Family
pub mod Refine
mod Tests
mod Rows
unfoldable pub use Rows.{revoke_family}
pub use Rows.{
  token_taken, session_taken, Error, Result, AuthService, Drawn, Issued, days, session_id_is,
  digest_is, token_id_is, write_auth_audit, new_session, new_refresh, logged_in, revoke_token,
  revoke_session, invalid_family, consume, use_session, set_password, min, invalid_credentials,
  invalid_session, invalid_password, integrity, ok, err,
}
use Secrets.{
  Password, Hasher, TokenManager, AccessClaims, hash_password, verify_password, issue_access,
}
use wi_fi_test_orchestrator.Prelude.{
  ℕ, ◌+◌, ◌*◌, ◌≡◌, Bool, true, false, not, ◌&&◌, ◌||◌, Option, none, some, List, [], ◌∷◌, ◌++◌,
  ◌==◌, leb, is_none, is_some, coalesce, if◌then◌else◌,
}
use wi_fi_test_orchestrator.Prelude.Table.{find, update}
use wi_fi_test_orchestrator.Backend.Access.{
  User, AuthSession, RefreshToken, Reason, Action, AuditOutcome, Db, user_id_is, revoke_live,
  refresh_reuse, session_invalid, logged_out, all_logged_out, password_changed, auth_login,
  auth_refresh_reuse, auth_refresh, auth_logout, auth_logout_all, auth_password_change, success,
  failure, denied,
}

-- The statements of `login` after the password was verified.
unfoldable pub open_session : AuthService → Drawn → ℕ → Option ℕ → User → Db → Issued × Db
open_session service drawn now replacement user db =
    let session = new_session service now drawn.session_id user in
    (
      record {
        access =
            issue_access service.tokens now drawn.jti user.id drawn.session_id user.auth_version;
        refresh_token = drawn.refresh_plaintext;
        user = logged_in now replacement user;
      },
      write_auth_audit (some user.id) auth_login (some drawn.session_id) success (record db {
        users = update (user_id_is user.id) (logged_in now replacement) db.users;
        sessions = db.sessions ++ session ∷ [];
        refresh_tokens =
            db.refresh_tokens
            ++ new_refresh drawn.token_id drawn.session_id
                (service.tokens.sha256 drawn.refresh_plaintext) none now
                session.inactivity_expires_at
              ∷ [];
      }),
    )

unfoldable pub login_found :
    AuthService → Drawn → ℕ → Password → Option User → Db → Result Issued × Db
unfolding open_session verify_password
login_found service drawn now password none db =
    (err invalid_credentials, write_auth_audit none auth_login none failure db)
login_found service drawn now password (some user) db =
    let verified = verify_password service.passwords drawn.salt password user.password_hash in
    if not verified.0 || not user.is_active
    then (err invalid_credentials, write_auth_audit none auth_login none failure db)
    else if session_taken drawn.session_id db
        || token_taken drawn.token_id (service.tokens.sha256 drawn.refresh_plaintext) db
    then (err integrity, db)
    else let opened = open_session service drawn now verified.1 user db in (ok opened.0, opened.1)

unfoldable pub login : AuthService → Drawn → ℕ → ℕ → Password → Db → Result Issued × Db
unfolding login_found
login service drawn now normalized password db =
    login_found service drawn now password (find (λ u. u.username == normalized) db.users) db

-- The statements of `refresh` after the checks.
unfoldable pub rotate :
    AuthService → Drawn → ℕ → RefreshToken → AuthSession → User → Db → Issued × Db
rotate service drawn now token family user db =
    let expiry = min family.absolute_expires_at (now + days service.inactivity_days) in
    (
      record {
        access = issue_access service.tokens now drawn.jti user.id family.id user.auth_version;
        refresh_token = drawn.refresh_plaintext;
        user = user;
      },
      write_auth_audit (some user.id) auth_refresh (some family.id) success (record db {
        sessions = update (session_id_is family.id) (use_session now expiry) db.sessions;
        refresh_tokens =
            update (token_id_is token.id) (consume now drawn.token_id) db.refresh_tokens
            ++ new_refresh drawn.token_id family.id (service.tokens.sha256 drawn.refresh_plaintext)
                (some token.id) now expiry
              ∷ [];
      }),
    )

unfoldable pub refresh_family :
    AuthService → Drawn → ℕ → RefreshToken → AuthSession → Option User → Db → Result Issued × Db
unfolding rotate revoke_family
refresh_family service drawn now token family none db = (err integrity, db)
refresh_family service drawn now token family (some user) db =
    if is_some token.consumed_at
    then (
      err invalid_session,
      write_auth_audit (some user.id) auth_refresh_reuse (some family.id) denied
          (revoke_family now refresh_reuse family db),
    )
    else if invalid_family now family user || is_some token.revoked_at || leb token.expires_at now
    then (err invalid_session, revoke_family now session_invalid family db)
    else if token_taken drawn.token_id (service.tokens.sha256 drawn.refresh_plaintext) db
    then (err integrity, db)
    else let rotated = rotate service drawn now token family user db in (ok rotated.0, rotated.1)

unfoldable pub refresh_session :
    AuthService → Drawn → ℕ → RefreshToken → Option AuthSession → Db → Result Issued × Db
unfolding refresh_family
refresh_session service drawn now token none db = (err integrity, db)
refresh_session service drawn now token (some family) db =
    refresh_family service drawn now token family (find (user_id_is family.user_id) db.users) db

unfoldable pub refresh_found :
    AuthService → Drawn → ℕ → Option RefreshToken → Db → Result Issued × Db
unfolding refresh_session
refresh_found service drawn now none db = (err invalid_session, db)
refresh_found service drawn now (some token) db =
    refresh_session service drawn now token (find (session_id_is token.session_id) db.sessions) db

unfoldable pub refresh : AuthService → Drawn → ℕ → ℕ → Db → Result Issued × Db
unfolding refresh_found
refresh service drawn now token db =
    refresh_found service drawn now
      (find (digest_is (service.tokens.sha256 token)) db.refresh_tokens) db

unfoldable pub authenticate_found :
    ℕ → AccessClaims → Option User → Option AuthSession → Result User
authenticate_found now claims (some user) (some session) =
    if not (session.user_id == claims.user_id)
      || not user.is_active
      || is_some session.revoked_at
      || leb session.absolute_expires_at now
      || leb session.inactivity_expires_at now
      || not (user.auth_version == claims.auth_version)
      || not (session.auth_version == claims.auth_version)
    then err invalid_session
    else ok user
authenticate_found now claims _ _ = err invalid_session

unfoldable pub authenticate_access : ℕ → AccessClaims → Db → Result User
unfolding authenticate_found
authenticate_access now claims db =
    authenticate_found now claims (find (user_id_is claims.user_id) db.users)
      (find (session_id_is claims.session_id) db.sessions)

unfoldable pub logout_found : ℕ → ℕ → Option AuthSession → Db → Db
unfolding revoke_family
logout_found now user_id none db = db
logout_found now user_id (some session) db =
    if session.user_id == user_id
    then write_auth_audit (some user_id) auth_logout (some session.id) success
        (revoke_family now logged_out session db)
    else db

unfoldable pub logout : ℕ → ℕ → ℕ → Db → Db
unfolding logout_found
logout now user_id session_id db =
    logout_found now user_id (find (session_id_is session_id) db.sessions) db

-- `logout_all` from the locked user on, with the action and the reason that have one text.
unfoldable pub logout_locked : ℕ → Action → Reason → Option User → Db → Result (Unit {0}) × Db
logout_locked now action reason none db = (err invalid_session, db)
logout_locked now action reason (some locked) db = (
  ok tt,
  write_auth_audit (some locked.id) action (some locked.id) success (record db {
    users =
        update (user_id_is locked.id) (λ u. record u { auth_version = u.auth_version + 1 })
          db.users;
    sessions = revoke_live now reason locked.id db.sessions;
  }),
)

unfoldable pub logout_all : ℕ → ℕ → Db → Result (Unit {0}) × Db
unfolding logout_locked
logout_all now user_id db =
    logout_locked now auth_logout_all all_logged_out (find (user_id_is user_id) db.users) db

-- `none` is the hash of a new password that is not valid: its exception leaves the tables.
unfoldable pub store_password : ℕ → ℕ → Option ℕ → Db → Result (Unit {0}) × Db
unfolding logout_locked
store_password now user_id none db = (err invalid_password, db)
store_password now user_id (some password_hash) db =
    let db' = record db {
      users = update (user_id_is user_id) (set_password password_hash) db.users;
    } in
    logout_locked now auth_password_change password_changed (find (user_id_is user_id) db'.users)
      db'

unfoldable pub change_found :
    AuthService → ℕ → ℕ → Password → Password → Option User → Db → Result (Unit {0}) × Db
unfolding verify_password hash_password store_password
change_found service salt now current new none db = (err invalid_session, db)
change_found service salt now current new (some locked) db =
    if not (verify_password service.passwords salt current locked.password_hash).0
    then (err invalid_credentials, db)
    else store_password now locked.id (hash_password service.passwords salt new) db

unfoldable pub change_password :
    AuthService → ℕ → ℕ → ℕ → Password → Password → Db → Result (Unit {0}) × Db
unfolding change_found
change_password service salt now user_id current new db =
    change_found service salt now current new (find (user_id_is user_id) db.users) db
