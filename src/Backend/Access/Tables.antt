-- ===== src/Backend/Access/Tables.antt =====
-- The tables users, roles, user_roles, sessions, refresh_tokens and audit_logs, as far as this service
-- and the one of backend/src/wto_backend/services/auth.py read and write them, and what the methods of
-- this one raise.
use wi_fi_test_orchestrator.Prelude.{ℕ, suc, Bool, Option, List, ◌==◌}

pub data RoleKey : Type 0 where
  administrator : RoleKey
  other_key : ℕ → RoleKey

abbrev pub key_number : RoleKey → ℕ
key_number administrator = 0
key_number (other_key n) = suc n

abbrev pub same_key : RoleKey → RoleKey → Bool
same_key a b = key_number a == key_number b

pub record User : Type 0 where
  pub id : ℕ
  pub username : ℕ
  pub email : Option ℕ
  pub password_hash : ℕ
  pub is_active : Bool
  pub must_change_password : Bool
  pub auth_version : ℕ
  pub disabled_at : Option ℕ
  pub last_login_at : Option ℕ

pub record Role : Type 0 where
  pub id : ℕ
  pub key : RoleKey

pub record UserRole : Type 0 where
  pub user_id : ℕ
  pub role_id : ℕ
  pub assigned_by_user_id : ℕ

pub data Reason : Type 0 where
  user_disabled administrator_revocation : Reason
  refresh_reuse session_invalid logged_out all_logged_out password_changed : Reason

pub record AuthSession : Type 0 where
  pub id : ℕ
  pub user_id : ℕ
  pub auth_version : ℕ
  pub issued_at : ℕ
  pub absolute_expires_at : ℕ
  pub inactivity_expires_at : ℕ
  pub last_used_at : Option ℕ
  pub revoked_at : Option ℕ
  pub revocation_reason : Option Reason

-- The column `token_digest` is a natural, as are all digests.
pub record RefreshToken : Type 0 where
  pub id : ℕ
  pub session_id : ℕ
  pub token_digest : ℕ
  pub parent_token_id : Option ℕ
  pub replacement_token_id : Option ℕ
  pub issued_at : ℕ
  pub expires_at : ℕ
  pub consumed_at : Option ℕ
  pub revoked_at : Option ℕ
  pub revocation_reason : Option Reason

pub data Action : Type 0 where
  user_create user_disable user_role_assign session_revoke user_role_remove : Action
  auth_login auth_refresh_reuse auth_refresh auth_logout auth_logout_all : Action
  auth_password_change : Action

pub data AuditOutcome : Type 0 where
  success failure denied : AuditOutcome

pub record AuditLog : Type 0 where
  pub actor_id : Option ℕ
  pub action : Action
  pub resource_id : Option ℕ
  pub outcome : AuditOutcome
  pub role_key : Option RoleKey

pub record Db : Type 0 where
  pub users : List User
  pub roles : List Role
  pub user_roles : List UserRole
  pub sessions : List AuthSession
  pub refresh_tokens : List RefreshToken
  pub audit : List AuditLog

-- `integrity` is the failure of the primary key of users.
pub data Error : Type 0 where
  conflict resource_not_found last_administrator integrity : Error

pub data Result {ℓ} (A : Type ℓ) : Type ℓ where
  ok : A → Result A
  err : Error → Result A
