-- ===== src/Backend/Credentials/Tables.antt =====
-- The tables agent_credentials and agent_credential_rotations beside those of the agent protocol and of
-- the idempotency records, and what the methods take, return and raise.
use wi_fi_test_orchestrator.Prelude.{ℕ, Bool, true, false, Option, List}
use wi_fi_test_orchestrator.Backend.Idempotency.{Tables, Cipher}
use wi_fi_test_orchestrator.Backend.Idempotency
use wi_fi_test_orchestrator.Backend.Presence

-- The texts of the two columns `state`.
pub data CredentialState : Type 0 where
  pending active activated revoked expired : CredentialState

abbrev pub is_pending : CredentialState → Bool
is_pending pending = true
is_pending _ = false

abbrev pub is_active : CredentialState → Bool
is_active active = true
is_active _ = false

pub data Reason : Type 0 where
  credential_rotated administrator_revocation agent_revoked rotation_expired : Reason

pub record AgentCredential : Type 0 where
  pub id : ℕ
  pub agent_id : ℕ
  pub credential_version : ℕ
  pub secret_digest : ℕ
  pub state : CredentialState
  pub issued_at : ℕ
  pub activated_at : Option ℕ
  pub expires_at : ℕ
  pub revoked_at : Option ℕ
  pub revoked_by_user_id : Option ℕ
  pub revocation_reason : Option Reason

pub record AgentCredentialRotation : Type 0 where
  pub id : ℕ
  pub agent_id : ℕ
  pub previous_credential_id : ℕ
  pub pending_credential_id : ℕ
  pub state : CredentialState
  pub created_at : ℕ
  pub expires_at : ℕ
  pub activated_at : Option ℕ

-- The text `wto_ac_1.<locator>.<secret>`.
pub record AgentSecret : Type 0 where
  pub locator : ℕ
  pub secret : ℕ

-- With the fields of `pending_credential` beside the others.
pub record RotationCreateResponse : Type 0 where
  pub rotation_id : ℕ
  pub expires_at : ℕ
  pub credential_id : ℕ
  pub credential_version : ℕ
  pub credential : AgentSecret
  pub issued_at : ℕ

pub record RotationActivateResponse : Type 0 where
  pub rotation_id : ℕ
  pub credential_id : ℕ
  pub credential_version : ℕ
  pub activated_at : ℕ

-- The bodies that idempotency records have, which one of the two responses validates or none.
pub data Body : Type 0 where
  created_body : RotationCreateResponse → Body
  activated_body : RotationActivateResponse → Body
  marker_body : Body

pub data Action : Type 0 where
  rotation_create rotation_activate credential_revoke agent_revoke idempotency_replay : Action

pub record AuditEntry : Type 0 where
  pub actor_id : Option ℕ
  pub agent_id : ℕ
  pub action : Action
  pub resource_id : ℕ

pub record Db (Secret : Type 0) : Type 0 where
  pub protocol : Presence.Db
  pub credentials : List AgentCredential
  pub rotations : List AgentCredentialRotation
  pub idempotency : Tables Body Secret
  pub audit : List AuditEntry

-- `integrity` is the failure of a key or of a partial index of the schema, `assertion` the one of a
-- record without a body, and `invalid_body` the one of `model_validate`.
pub data Error : Type 0 where
  idempotency_error : Idempotency.Error → Error
  agent_authentication conflict resource_not_found integrity assertion invalid_body : Error

pub data Result {ℓ} (A : Type ℓ) : Type ℓ where
  ok : A → Result A
  err : Error → Result A

-- `digest` is `secret_digest` under the service's key.
pub record AgentCredentialService (Secret : Type 0) : Type 0 where
  pub cipher : Cipher Body Secret
  pub digest : ℕ → ℕ
  pub agent_credential_days : ℕ

-- What a call draws: the identifiers of the records that it adds, and the secret.
pub record Fresh : Type 0 where
  pub record_id : ℕ
  pub credential_id : ℕ
  pub rotation_id : ℕ
  pub secret : ℕ
