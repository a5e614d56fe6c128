-- ===== src/Backend/Credentials/Rotation.antt =====
-- `create_rotation`.
use wi_fi_test_orchestrator.Prelude.{
  ℕ, ◌+◌, Bool, true, not, ◌||◌, Option, none, some, [], ◌∷◌, ◌++◌, is_some, if◌then◌else◌,
}
use wi_fi_test_orchestrator.Prelude.Table.{find}
use wi_fi_test_orchestrator.Backend.Idempotency.{
  IdempotencyRecord, Start, Tables, begin, complete_public, complete_secret, secret_replay_expired,
  idempotency_conflict, idempotency_in_progress, secret_unreadable,
}
use wi_fi_test_orchestrator.Backend.Idempotency
use wi_fi_test_orchestrator.Backend.Presence.{agent_is, barred}
use wi_fi_test_orchestrator.Backend.Credentials.{
  AgentCredential, AgentCredentialRotation, RotationCreateResponse, Body, Db, Result,
  AgentCredentialService, Fresh, pending, created_body, activated_body, marker_body,
  rotation_create, idempotency_replay, idempotency_error, agent_authentication, conflict, integrity,
  assertion, invalid_body, ok, err, credential_is, rotation_is, pending_rotation_of, pending_of,
  rotation_minutes, rotate_scope, highest, active_found, write_agent_audit, expire_pending,
}

module _ {Secret : Type 0} (service : AgentCredentialService Secret) where
  abbrev pub new_credential : Fresh → ℕ → ℕ → Db Secret → AgentCredential
  new_credential drawn now agent_id db = record {
    id = drawn.credential_id;
    agent_id = agent_id;
    credential_version = highest agent_id db.credentials + 1;
    secret_digest = service.digest drawn.secret;
    state = pending;
    issued_at = now;
    activated_at = none;
    expires_at = now + rotation_minutes;
    revoked_at = none;
    revoked_by_user_id = none;
    revocation_reason = none;
  }

  abbrev pub new_rotation : Fresh → ℕ → ℕ → ℕ → AgentCredentialRotation
  new_rotation drawn now agent_id active_id = record {
    id = drawn.rotation_id;
    agent_id = agent_id;
    previous_credential_id = active_id;
    pending_credential_id = drawn.credential_id;
    state = pending;
    created_at = now;
    expires_at = now + rotation_minutes;
    activated_at = none;
  }

  abbrev pub create_response : Fresh → ℕ → AgentCredential → RotationCreateResponse
  create_response drawn now credential = record {
    rotation_id = drawn.rotation_id;
    expires_at = now + rotation_minutes;
    credential_id = credential.id;
    credential_version = credential.credential_version;
    credential = record { locator = credential.id; secret = drawn.secret };
    issued_at = credential.issued_at;
  }

  -- Whether one of the two rows would repeat a key or a pending row of the agent.
  abbrev pub rotation_taken : Fresh → ℕ → Db Secret → Bool
  rotation_taken drawn agent_id db =
      is_some (find (credential_is drawn.credential_id) db.credentials)
      || is_some (find (pending_of agent_id) db.credentials)
      || is_some (find (rotation_is drawn.rotation_id) db.rotations)

  -- The statements after the last check.
  unfoldable pub store_rotation :
      Fresh → ℕ → ℕ → ℕ → IdempotencyRecord Body → Db Secret → RotationCreateResponse × Db Secret
  store_rotation drawn now agent_id active_id entry db =
      let credential = new_credential drawn now agent_id db in
      let response = create_response drawn now credential in
      (
        response,
        write_agent_audit none agent_id rotation_create drawn.rotation_id (record db {
          credentials = db.credentials ++ credential ∷ [];
          rotations = db.rotations ++ new_rotation drawn now agent_id active_id ∷ [];
          idempotency =
              complete_secret service.cipher now entry (created_body response) 201 db.idempotency;
        }),
      )

  -- The checks after `_expire_pending`. The last argument is what a rollback restores.
  unfoldable pub create_checked :
      Fresh
      → ℕ
      → ℕ
      → ℕ
      → IdempotencyRecord Body
      → Db Secret
      → Db Secret
      → Result RotationCreateResponse × Db Secret
  unfolding store_rotation
  create_checked drawn now agent_id active_id entry db before =
      if is_some (find (pending_rotation_of agent_id) db.rotations)
      then (err conflict, before)
      else if not (active_found (find (credential_is active_id) db.credentials))
      then (err agent_authentication, before)
      else if rotation_taken drawn agent_id db
      then (err integrity, before)
      else let stored = store_rotation drawn now agent_id active_id entry db in
        (ok stored.0, stored.1)

  unfoldable pub create_new :
      Fresh
      → ℕ
      → ℕ
      → ℕ
      → IdempotencyRecord Body
      → Db Secret
      → Db Secret
      → Result RotationCreateResponse × Db Secret
  unfolding create_checked
  create_new drawn now agent_id active_id entry db before =
      if barred (find (agent_is agent_id) db.protocol.agents)
      then (err agent_authentication, before)
      else create_checked drawn now agent_id active_id entry (expire_pending now agent_id db) before

  unfoldable pub create_replay :
      ℕ → Option Body → Db Secret → Db Secret → Result RotationCreateResponse × Db Secret
  create_replay agent_id (some (created_body response)) db before =
      (ok response, write_agent_audit none agent_id idempotency_replay response.rotation_id db)
  create_replay agent_id (some (activated_body response)) db before = (err invalid_body, before)
  create_replay agent_id (some marker_body) db before = (err invalid_body, before)
  create_replay agent_id none db before = (err assertion, before)

  unfoldable pub create_started :
      Fresh
      → ℕ
      → ℕ
      → ℕ
      → Idempotency.Result (Start Body)
      → Db Secret
      → Db Secret
      → Result RotationCreateResponse × Db Secret
  unfolding create_new create_replay
  create_started drawn now agent_id active_id (Idempotency.err secret_replay_expired) db before =
      (err (idempotency_error secret_replay_expired), expire_pending now agent_id db)
  create_started drawn now agent_id active_id (Idempotency.err e) db before =
      (err (idempotency_error e), before)
  create_started drawn now agent_id active_id (Idempotency.ok start) db before =
      if not start.is_new
      then create_replay agent_id start.replay_body db before
      else create_new drawn now agent_id active_id start.entry db before

  unfoldable pub create_rotation :
      Fresh → ℕ → ℕ → ℕ → ℕ → ℕ → Db Secret → Result RotationCreateResponse × Db Secret
  unfolding create_started
  create_rotation drawn now agent_id active_id fingerprint key db =
      let started =
        begin service.cipher now drawn.record_id (rotate_scope agent_id key) fingerprint true
          db.idempotency in
      create_started drawn now agent_id active_id started.0 (record db { idempotency = started.1 })
        db
