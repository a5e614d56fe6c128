-- ===== src/Backend/Credentials/Activation.antt =====
-- `activate_rotation`.
use wi_fi_test_orchestrator.Prelude.{
  ℕ, false, not, ◌||◌, Option, none, some, ◌==◌, leb, is_some, if◌then◌else◌,
}
use wi_fi_test_orchestrator.Prelude.Table.{find, update}
use wi_fi_test_orchestrator.Backend.Idempotency.{
  IdempotencyRecord, Start, Tables, begin, complete_public, complete_secret, secret_replay_expired,
  idempotency_conflict, idempotency_in_progress, secret_unreadable,
}
use wi_fi_test_orchestrator.Backend.Idempotency
use wi_fi_test_orchestrator.Backend.Presence.{agent_is, barred}
use wi_fi_test_orchestrator.Backend.Credentials.{
  AgentCredential, AgentCredentialRotation, RotationActivateResponse, Body, Db, Result,
  AgentCredentialService, is_pending, activated, created_body, activated_body, marker_body,
  rotation_activate, idempotency_replay, idempotency_error, agent_authentication, conflict,
  integrity, assertion, invalid_body, ok, err, credential_is, rotation_is, active_of,
  activate_scope, rotate_out, activate, write_agent_audit,
}

module _ {Secret : Type 0} (service : AgentCredentialService Secret) where
  abbrev pub activate_response :
      ℕ → AgentCredentialRotation → AgentCredential → RotationActivateResponse
  activate_response now rotation credential = record {
    rotation_id = rotation.id;
    credential_id = credential.id;
    credential_version = credential.credential_version;
    activated_at = now;
  }

  -- `previous` is revoked and written first, then `pending` becomes active.
  unfoldable pub switch :
      ℕ
      → ℕ
      → AgentCredentialRotation
      → AgentCredential
      → AgentCredential
      → IdempotencyRecord Body
      → Db Secret
      → RotationActivateResponse × Db Secret
  switch now agent_id rotation next previous entry db =
      let response = activate_response now rotation next in
      (
        response,
        write_agent_audit none agent_id rotation_activate rotation.id (record db {
          credentials =
              update (credential_is next.id) (activate now service.agent_credential_days)
                (update (credential_is previous.id) (rotate_out now) db.credentials);
          rotations =
              update (rotation_is rotation.id)
                (λ r. record r { state = activated; activated_at = some now }) db.rotations;
          idempotency =
              complete_public service.cipher now entry (activated_body response) 200 db.idempotency;
        }),
      )

  unfoldable pub activate_pair :
      ℕ
      → ℕ
      → AgentCredentialRotation
      → Option AgentCredential
      → Option AgentCredential
      → IdempotencyRecord Body
      → Db Secret
      → Db Secret
      → Result RotationActivateResponse × Db Secret
  unfolding switch
  activate_pair now agent_id rotation (some next) (some previous) entry db before =
      if not (is_pending next.state)
      then (err conflict, before)
      else if is_some (
          find (active_of next.agent_id)
            (update (credential_is previous.id) (rotate_out now) db.credentials))
      then (err integrity, before)
      else let switched = switch now agent_id rotation next previous entry db in
        (ok switched.0, switched.1)
  activate_pair now agent_id rotation _ _ entry db before = (err conflict, before)

  unfoldable pub activate_found :
      ℕ
      → ℕ
      → ℕ
      → Option AgentCredentialRotation
      → IdempotencyRecord Body
      → Db Secret
      → Db Secret
      → Result RotationActivateResponse × Db Secret
  unfolding activate_pair
  activate_found now agent_id supplied_id none entry db before = (err agent_authentication, before)
  activate_found now agent_id supplied_id (some rotation) entry db before =
      if not (rotation.agent_id == agent_id) || not (rotation.pending_credential_id == supplied_id)
      then (err agent_authentication, before)
      else if not (is_pending rotation.state) || leb rotation.expires_at now
      then (err conflict, before)
      else activate_pair now agent_id rotation
          (find (credential_is rotation.pending_credential_id) db.credentials)
          (find (credential_is rotation.previous_credential_id) db.credentials) entry db before

  unfoldable pub activate_replay :
      ℕ → Option Body → Db Secret → Db Secret → Result RotationActivateResponse × Db Secret
  activate_replay agent_id (some (activated_body response)) db before =
      (ok response, write_agent_audit none agent_id idempotency_replay response.rotation_id db)
  activate_replay agent_id (some (created_body response)) db before = (err invalid_body, before)
  activate_replay agent_id (some marker_body) db before = (err invalid_body, before)
  activate_replay agent_id none db before = (err assertion, before)

  unfoldable pub activate_started :
      ℕ
      → ℕ
      → ℕ
      → ℕ
      → Idempotency.Result (Start Body)
      → Db Secret
      → Db Secret
      → Result RotationActivateResponse × Db Secret
  unfolding activate_found activate_replay
  activate_started now agent_id supplied_id rotation_id (Idempotency.err e) db before =
      (err (idempotency_error e), before)
  activate_started now agent_id supplied_id rotation_id (Idempotency.ok start) db before =
      if not start.is_new
      then activate_replay agent_id start.replay_body db before
      else if barred (find (agent_is agent_id) db.protocol.agents)
      then (err agent_authentication, before)
      else activate_found now agent_id supplied_id (find (rotation_is rotation_id) db.rotations)
          start.entry db before

  unfoldable pub activate_rotation :
      ℕ → ℕ → ℕ → ℕ → ℕ → ℕ → ℕ → Db Secret → Result RotationActivateResponse × Db Secret
  unfolding activate_started
  activate_rotation record_id now agent_id supplied_id rotation_id fingerprint key db =
      let started =
        begin service.cipher now record_id (activate_scope agent_id rotation_id key) fingerprint
          false db.idempotency in
      activate_started now agent_id supplied_id rotation_id started.0
        (record db { idempotency = started.1 }) db
