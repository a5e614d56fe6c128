-- ===== src/Backend/Sessions/Rows.antt =====
-- The values that `AuthService` works on, the rows that it adds and the changes of a row, and
-- `_revoke_family`.
use wi_fi_test_orchestrator.Backend.Sessions.Secrets.{Hasher, TokenManager}
use wi_fi_test_orchestrator.Prelude.{
  ℕ, ◌+◌, ◌*◌, Bool, false, not, ◌&&◌, ◌||◌, Option, none, some, [], ◌∷◌, ◌++◌, ◌==◌, leb, is_none,
  is_some, coalesce, if◌then◌else◌, List,
}
use wi_fi_test_orchestrator.Prelude.Table.{find, update}
use wi_fi_test_orchestrator.Backend.Access.{
  User, AuthSession, RefreshToken, Reason, Action, AuditOutcome, Db,
}

-- `integrity` is the failure of a key of the schema.
pub data Error : Type 0 where
  invalid_credentials invalid_session invalid_password integrity : Error

pub data Result {ℓ} (A : Type ℓ) : Type ℓ where
  ok : A → Result A
  err : Error → Result A

pub record AuthService : Type 0 where
  pub passwords : Hasher
  pub tokens : TokenManager
  pub absolute_days : ℕ
  pub inactivity_days : ℕ

-- What a login or a refresh draws.
pub record Drawn : Type 0 where
  pub session_id : ℕ
  pub token_id : ℕ
  pub refresh_plaintext : ℕ
  pub jti : ℕ
  pub salt : ℕ

-- The access token, the refresh token and the user.
pub record Issued : Type 0 where
  pub access : List ℕ
  pub refresh_token : ℕ
  pub user : User

abbrev pub days : ℕ → ℕ
days n = n * 86400

abbrev pub min : ℕ → ℕ → ℕ
min a b = if leb a b then a else b

abbrev pub session_id_is : ℕ → AuthSession → Bool
session_id_is id session = session.id == id

abbrev pub digest_is : ℕ → RefreshToken → Bool
digest_is digest token = token.token_digest == digest

abbrev pub token_id_is : ℕ → RefreshToken → Bool
token_id_is id token = token.id == id

abbrev pub write_auth_audit : Option ℕ → Action → Option ℕ → AuditOutcome → Db → Db
write_auth_audit actor_id action resource_id outcome db = record db {
  audit =
      db.audit
      ++ record {
        actor_id = actor_id;
        action = action;
        resource_id = resource_id;
        outcome = outcome;
        role_key = none;
      }
        ∷ [];
}

abbrev pub new_session : AuthService → ℕ → ℕ → User → AuthSession
new_session service now id user = record {
  id = id;
  user_id = user.id;
  auth_version = user.auth_version;
  issued_at = now;
  absolute_expires_at = now + days service.absolute_days;
  inactivity_expires_at =
      min (now + days service.absolute_days) (now + days service.inactivity_days);
  last_used_at = some now;
  revoked_at = none;
  revocation_reason = none;
}

abbrev pub new_refresh : ℕ → ℕ → ℕ → Option ℕ → ℕ → ℕ → RefreshToken
new_refresh id session_id digest parent now expires_at = record {
  id = id;
  session_id = session_id;
  token_digest = digest;
  parent_token_id = parent;
  replacement_token_id = none;
  issued_at = now;
  expires_at = expires_at;
  consumed_at = none;
  revoked_at = none;
  revocation_reason = none;
}

-- The two assignments to the user.
abbrev pub logged_in : ℕ → Option ℕ → User → User
logged_in now replacement user = record user {
  password_hash = coalesce replacement user.password_hash;
  last_login_at = some now;
}

-- The columns that an UPDATE of a live refresh token's family sets.
abbrev pub revoke_token : ℕ → Reason → RefreshToken → RefreshToken
revoke_token now reason token = record token {
  revoked_at = some now;
  revocation_reason = some reason;
}

abbrev pub revoke_session : ℕ → Reason → AuthSession → AuthSession
revoke_session now reason session = record session {
  revoked_at = some (coalesce session.revoked_at now);
  revocation_reason = some (coalesce session.revocation_reason reason);
}

-- `_revoke_family`
unfoldable pub revoke_family : ℕ → Reason → AuthSession → Db → Db
revoke_family now reason family db = record db {
  sessions = update (session_id_is family.id) (revoke_session now reason) db.sessions;
  refresh_tokens =
      update (λ token. token.session_id == family.id && is_none token.revoked_at)
        (revoke_token now reason) db.refresh_tokens;
}

abbrev pub invalid_family : ℕ → AuthSession → User → Bool
invalid_family now family user =
    is_some family.revoked_at
    || leb family.absolute_expires_at now
    || leb family.inactivity_expires_at now
    || not user.is_active
    || not (family.auth_version == user.auth_version)

abbrev pub consume : ℕ → ℕ → RefreshToken → RefreshToken
consume now replacement_id token = record token {
  consumed_at = some now;
  replacement_token_id = some replacement_id;
}

abbrev pub use_session : ℕ → ℕ → AuthSession → AuthSession
use_session now inactivity_expiry session = record session {
  last_used_at = some now;
  inactivity_expires_at = inactivity_expiry;
}

abbrev pub set_password : ℕ → User → User
set_password password_hash user = record user {
  password_hash = password_hash;
  must_change_password = false;
}

-- Whether a row that is added would repeat a key of its table.
abbrev pub token_taken : ℕ → ℕ → Db → Bool
token_taken id digest db =
    is_some (find (token_id_is id) db.refresh_tokens)
    || is_some (find (digest_is digest) db.refresh_tokens)

abbrev pub session_taken : ℕ → Db → Bool
session_taken id db = is_some (find (session_id_is id) db.sessions)
