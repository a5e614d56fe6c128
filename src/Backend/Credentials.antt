-- ===== src/Backend/Credentials.antt =====
-- `AgentCredentialService` of backend/src/wto_backend/services/agent_credentials.py. Identifiers are
-- naturals, times are in seconds. The fingerprint of a request is an argument. A method that raises
-- commits nothing, but for a secret that is past its replay; the row locks and the lock of a scope
-- make the methods a sequence. The agent's own reason of revocation is left out.
mod Tables
mod Expires
pub mod Rotation
pub mod Activation
pub mod Gone
pub mod Creates
pub mod Activates
pub mod Calls
pub mod Again
pub mod Repeated
mod Tests
pub use Tables.{
  CredentialState, Reason, AgentCredential, AgentCredentialRotation, AgentSecret,
  RotationCreateResponse, RotationActivateResponse, Body, Action, AuditEntry, Db, Error, Result,
  AgentCredentialService, Fresh, is_pending, is_active, pending, active, activated, revoked,
  expired, credential_rotated, administrator_revocation, agent_revoked, rotation_expired,
  created_body, activated_body, marker_body, rotation_create, rotation_activate, credential_revoke,
  agent_revoke, idempotency_replay, idempotency_error, agent_authentication, conflict,
  resource_not_found, integrity, assertion, invalid_body, ok, err,
}
use wi_fi_test_orchestrator.Prelude.{
  ℕ, suc, ◌+◌, ◌*◌, ◌≡◌, Bool, true, false, not, ◌&&◌, ◌||◌, Option, none, some, List, [], ◌∷◌,
  ◌++◌, ◌==◌, ltb, leb, is_some, if◌then◌else◌,
}
use wi_fi_test_orchestrator.Prelude.Table.{find, update}
use wi_fi_test_orchestrator.Backend.Idempotency.{
  Scope, IdempotencyRecord, Start, begin, complete_public, complete_secret, secret_replay_expired,
}
use wi_fi_test_orchestrator.Backend.Idempotency
use wi_fi_test_orchestrator.Backend.Presence.{Agent, agent_is, barred}

abbrev pub credential_is : ℕ → AgentCredential → Bool
credential_is id credential = credential.id == id

abbrev pub rotation_is : ℕ → AgentCredentialRotation → Bool
rotation_is id rotation = rotation.id == id

-- `pending_rotation`
abbrev pub pending_rotation_of : ℕ → AgentCredentialRotation → Bool
pending_rotation_of agent_id rotation = rotation.agent_id == agent_id && is_pending rotation.state

-- The rows of the two partial indexes on agent_credentials.
abbrev pub active_of : ℕ → AgentCredential → Bool
active_of agent_id credential = credential.agent_id == agent_id && is_active credential.state

abbrev pub pending_of : ℕ → AgentCredential → Bool
pending_of agent_id credential = credential.agent_id == agent_id && is_pending credential.state

-- `AgentCredential.state.in_(["active", "pending"])`
abbrev pub live_of : ℕ → AgentCredential → Bool
live_of agent_id credential =
    credential.agent_id == agent_id && (is_active credential.state || is_pending credential.state)

abbrev pub rotation_minutes : ℕ
rotation_minutes = 15 * 60

-- The principal type `agent` is 0; so is the operation `agent.credential.rotate`.
abbrev pub rotate_scope : ℕ → ℕ → Scope
rotate_scope agent_id key = record {
  principal_type = 0;
  principal_id = agent_id;
  operation_id = 0;
  idempotency_key = key;
}

abbrev pub activate_scope : ℕ → ℕ → ℕ → Scope
activate_scope agent_id rotation_id key = record {
  principal_type = 0;
  principal_id = agent_id;
  operation_id = suc rotation_id;
  idempotency_key = key;
}

abbrev pub expire_credential : ℕ → AgentCredential → AgentCredential
expire_credential now credential = record credential {
  state = expired;
  revoked_at = some now;
  revocation_reason = some rotation_expired;
}

abbrev pub rotate_out : ℕ → AgentCredential → AgentCredential
rotate_out now credential = record credential {
  state = revoked;
  revoked_at = some now;
  revocation_reason = some credential_rotated;
}

abbrev pub activate : ℕ → ℕ → AgentCredential → AgentCredential
activate now credential_days credential = record credential {
  state = active;
  activated_at = some now;
  expires_at = now + credential_days * 86400;
}

abbrev pub revoke_by : ℕ → ℕ → Reason → AgentCredential → AgentCredential
revoke_by now actor_id reason credential = record credential {
  state = revoked;
  revoked_at = some now;
  revoked_by_user_id = some actor_id;
  revocation_reason = some reason;
}

-- `func.max(AgentCredential.credential_version)`, or 0
unfoldable pub highest : ℕ → List AgentCredential → ℕ
highest agent_id [] = 0
highest agent_id (credential ∷ rest) =
    let others = highest agent_id rest in
    if credential.agent_id == agent_id && ltb others credential.credential_version
    then credential.credential_version
    else others

abbrev pub active_found : Option AgentCredential → Bool
active_found none = false
active_found (some credential) = is_active credential.state

abbrev pub revoke_row : ℕ → ℕ → Agent → Agent
revoke_row now actor_id agent = record agent {
  is_active = false;
  disabled_at = some now;
  revoked_at = some now;
  revoked_by_user_id = some actor_id;
}

module _ {Secret : Type 0} where
  abbrev pub write_agent_audit : Option ℕ → ℕ → Action → ℕ → Db Secret → Db Secret
  write_agent_audit actor_id agent_id action resource_id db = record db {
    audit =
        db.audit
        ++ record {
          actor_id = actor_id;
          agent_id = agent_id;
          action = action;
          resource_id = resource_id;
        }
          ∷ [];
  }

  unfoldable pub expire_rotation : ℕ → Option AgentCredentialRotation → Db Secret → Db Secret
  expire_rotation now none db = db
  expire_rotation now (some rotation) db = if ltb now rotation.expires_at then db else record db {
    rotations = update (rotation_is rotation.id) (λ r. record r { state = expired }) db.rotations;
    credentials =
        update (λ c. c.id == rotation.pending_credential_id && is_pending c.state)
          (expire_credential now) db.credentials;
  }

  -- `_expire_pending`
  unfoldable pub expire_pending : ℕ → ℕ → Db Secret → Db Secret
  unfolding expire_rotation
  expire_pending now agent_id db =
      expire_rotation now (find (pending_rotation_of agent_id) db.rotations) db

  unfoldable pub revoke_owned :
      ℕ → ℕ → ℕ → Option AgentCredential → Db Secret → Result (Unit {0}) × Db Secret
  revoke_owned now agent_id actor_id none db = (err resource_not_found, db)
  revoke_owned now agent_id actor_id (some credential) db =
      if not (credential.agent_id == agent_id) then (err resource_not_found, db) else (
        ok tt,
        write_agent_audit (some actor_id) agent_id credential_revoke credential.id (record db {
          credentials =
              update (credential_is credential.id) (revoke_by now actor_id administrator_revocation)
                db.credentials;
        }),
      )

  unfoldable pub revoke_credential : ℕ → ℕ → ℕ → ℕ → Db Secret → Result (Unit {0}) × Db Secret
  unfolding revoke_owned
  revoke_credential now agent_id credential_id actor_id db =
      revoke_owned now agent_id actor_id (find (credential_is credential_id) db.credentials) db

  unfoldable pub revoke_all : ℕ → ℕ → Option Agent → Db Secret → Result (Unit {0}) × Db Secret
  revoke_all now actor_id none db = (err resource_not_found, db)
  revoke_all now actor_id (some agent) db = (
    ok tt,
    write_agent_audit (some actor_id) agent.id agent_revoke agent.id (record db {
      protocol = record (db.protocol) {
        agents = update (agent_is agent.id) (revoke_row now actor_id) db.protocol.agents;
      };
      credentials = update (live_of agent.id) (revoke_by now actor_id agent_revoked) db.credentials;
      rotations =
          update (pending_rotation_of agent.id) (λ r. record r { state = revoked }) db.rotations;
    }),
  )

  unfoldable pub revoke_agent : ℕ → ℕ → ℕ → Db Secret → Result (Unit {0}) × Db Secret
  unfolding revoke_all
  revoke_agent now agent_id actor_id db =
      revoke_all now actor_id (find (agent_is agent_id) db.protocol.agents) db
