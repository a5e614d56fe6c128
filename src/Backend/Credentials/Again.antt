-- ===== src/Backend/Credentials/Again.antt =====
-- A request of an activation that is repeated.
use wi_fi_test_orchestrator.Prelude.{
  ℕ, ◌≡◌, refl, sym, ap, subst, true, false, not, ◌||◌, Option, none, some, arith, ◌==◌, leb,
  is_some, Bool-cases, inl, inr,
}
use wi_fi_test_orchestrator.Prelude.Table.{find, update}
use wi_fi_test_orchestrator.Backend.Idempotency.{
  Start, Scope, IdempotencyRecord, Tables, begin, complete_public, complete_secret, complete_with,
  new_record, in_scope, replay_of, secret_window, secret_replay_expired,
}
use wi_fi_test_orchestrator.Backend.Idempotency
use wi_fi_test_orchestrator.Backend.Idempotency.Replay.{begin-complete_public}
use wi_fi_test_orchestrator.Backend.Presence.{agent_is, barred}
use wi_fi_test_orchestrator.Backend.Credentials.{
  AgentCredential, AgentCredentialRotation, RotationActivateResponse, Body, Db,
  AgentCredentialService, ok, idempotency_replay, is_pending, credential_is, rotation_is, active_of,
  rotate_out, activate_scope, write_agent_audit, activated_body,
}
use wi_fi_test_orchestrator.Backend.Credentials.Activation.{
  activate_rotation, activate_started, activate_replay, activate_found, activate_pair, switch,
}

module _ {Secret : Type 0} (service : AgentCredentialService Secret) where
  -- The idempotency tables after an activation that was accepted.
  activate_pair-completes :
      (now agent_id : ℕ) (rotation : AgentCredentialRotation)
      (next previous : Option AgentCredential) (entry : IdempotencyRecord Body)
      (db before : Db Secret) (response : RotationActivateResponse)
      → (activate_pair service now agent_id rotation next previous entry db before).0 ≡ ok response
      → (activate_pair service now agent_id rotation next previous entry db before).1.idempotency
        ≡ complete_public service.cipher now entry (activated_body response) 200 db.idempotency
  unfolding activate_pair switch
  activate_pair-completes now agent_id rotation none previous entry db before response h =
      absurd (ground (arith, h))
  activate_pair-completes now agent_id rotation (some next) none entry db before response h =
      absurd (ground (arith, h))
  activate_pair-completes now agent_id rotation (some next) (some previous) entry db before response
        h =
      elim (Bool-cases (not (is_pending next.state))) [
        | inl a ↦ absurd (ground (arith, h, a))
        | inr a ↦
            elim (Bool-cases (
              is_some (
                find (active_of next.agent_id)
                  (update (credential_is previous.id) (rotate_out now) db.credentials)))) [
                    | inl b ↦ absurd (ground (arith, h, a, b))
                    | inr b ↦
                        rw (a, b)
                          (ap
                            (λ r.
                              complete_public service.cipher now entry (activated_body r) 200
                                db.idempotency)
                            (ground (arith, h, a, b)))
                  ]
      ]

  activate_found-completes :
      (now agent_id supplied_id : ℕ) (o : Option AgentCredentialRotation)
      (entry : IdempotencyRecord Body) (db before : Db Secret) (response : RotationActivateResponse)
      → (activate_found service now agent_id supplied_id o entry db before).0 ≡ ok response
      → (activate_found service now agent_id supplied_id o entry db before).1.idempotency
        ≡ complete_public service.cipher now entry (activated_body response) 200 db.idempotency
  unfolding activate_found
  activate_found-completes now agent_id supplied_id none entry db before response h =
      absurd (ground (arith, h))
  activate_found-completes now agent_id supplied_id (some rotation) entry db before response h =
      elim (Bool-cases (
        not (rotation.agent_id == agent_id)
        || not (rotation.pending_credential_id == supplied_id))) [
          | inl a ↦ absurd (ground (arith, h, a))
          | inr a ↦
              elim (Bool-cases (not (is_pending rotation.state) || leb rotation.expires_at now)) [
                | inl b ↦ absurd (ground (arith, h, a, b))
                | inr b ↦
                    rw (a, b)
                      (activate_pair-completes now agent_id rotation
                        (find (credential_is rotation.pending_credential_id) db.credentials)
                        (find (credential_is rotation.previous_credential_id) db.credentials) entry
                        db before response (ground (arith, h, a, b)))
              ]
        ]

  -- What `begin` gives for a scope without a record.
  abbrev fresh_start : IdempotencyRecord Body → Start Body
  fresh_start entry = record {
    entry = entry;
    replay_body = none;
    replay_status = none;
    is_new = true;
  }

  activate_new-completes :
      (now agent_id supplied_id rotation_id : ℕ) (entry : IdempotencyRecord Body)
      (db before : Db Secret) (response : RotationActivateResponse)
      → (activate_started service now agent_id supplied_id rotation_id
          (Idempotency.ok (fresh_start entry))
          db
          before).0
        ≡ ok response
      → (activate_started service now agent_id supplied_id rotation_id
          (Idempotency.ok (fresh_start entry))
          db
          before).1.idempotency
        ≡ complete_public service.cipher now entry (activated_body response) 200 db.idempotency
  unfolding activate_started
  activate_new-completes now agent_id supplied_id rotation_id entry db before response h =
      elim (Bool-cases (barred (find (agent_is agent_id) db.protocol.agents))) [
        | inl a ↦ absurd (ground (arith, h, a))
        | inr a ↦ rw a (
            activate_found-completes now agent_id supplied_id
              (find (rotation_is rotation_id) db.rotations) entry db before response
              (ground (arith, h, a)))
      ]

  -- A start that replays an activation.
  activate_rotation-replays :
      (record_id now agent_id supplied_id rotation_id fingerprint key : ℕ) (start : Start Body)
      (db : Db Secret) (response : RotationActivateResponse)
      → begin service.cipher now record_id
          (activate_scope agent_id rotation_id key)
          fingerprint
          false
          db.idempotency
        ≡ (Idempotency.ok start, db.idempotency)
      → start.is_new ≡ false
      → start.replay_body ≡ some (activated_body response)
      → activate_rotation service record_id now agent_id supplied_id rotation_id fingerprint key db
        ≡ (ok response, write_agent_audit none agent_id idempotency_replay response.rotation_id db)
  unfolding activate_rotation activate_started activate_replay
  activate_rotation-replays record_id now agent_id supplied_id rotation_id fingerprint key start db
        response b n r =
      rw (b, n, r) refl

  -- For a key that the agent has not used for this rotation: once an activation was accepted, the same
  -- request is answered at any later time by the same response, and changes nothing but the audit.
  pub activate_rotation-again :
      (record_id record_id' now later agent_id supplied_id supplied_id' rotation_id fingerprint
        key : ℕ)
      (db : Db Secret) (response : RotationActivateResponse)
      → find (in_scope (activate_scope agent_id rotation_id key)) db.idempotency.records ≡ none
      → (activate_rotation service record_id now agent_id supplied_id rotation_id fingerprint key
          db).0
        ≡ ok response
      → let db' =
          (activate_rotation service record_id now agent_id supplied_id rotation_id fingerprint key
            db).1 in
        activate_rotation service record_id' later agent_id supplied_id' rotation_id fingerprint key
          db'
        ≡ (ok response, write_agent_audit none agent_id idempotency_replay response.rotation_id db')
  unfolding activate_rotation
  activate_rotation-again record_id record_id' now later agent_id supplied_id supplied_id'
        rotation_id fingerprint key db response f h =
      let begun =
        begin-complete_public service.cipher now now later record_id record_id' scope fingerprint
          (activated_body response) 200 db.idempotency f in
      activate_rotation-replays record_id' later agent_id supplied_id' rotation_id fingerprint key
        start _ response
        (subst
          (λ t.
            begin service.cipher later record_id' scope fingerprint false t
            ≡ (Idempotency.ok start, t))
          (sym completed) begun.1)
        refl refl
    where
      scope : Scope
      scope = activate_scope agent_id rotation_id key

      entry : IdempotencyRecord Body
      entry = new_record service.cipher now record_id scope fingerprint

      start : Start Body
      start = record {
        entry = complete_with service.cipher now (activated_body response) 200 entry;
        replay_body = some (activated_body response);
        replay_status = some 200;
        is_new = false;
      }

      begun_db : Db Secret
      begun_db = record db {
        idempotency = (begin service.cipher now record_id scope fingerprint false db.idempotency).1;
      }

      completed :
          (activate_rotation service record_id now agent_id supplied_id rotation_id fingerprint key
            db).1.idempotency
          ≡ complete_public service.cipher now entry
              (activated_body response)
              200
              begun_db.idempotency
      completed =
          let begun =
            begin-complete_public service.cipher now now later record_id record_id' scope
              fingerprint (activated_body response) 200 db.idempotency f in
          subst
            (λ r.
              (activate_started service now agent_id supplied_id rotation_id r begun_db db).0
                ≡ ok response
              → (activate_started service now agent_id supplied_id rotation_id r begun_db
                  db).1.idempotency
                ≡ complete_public service.cipher now entry (activated_body response) 200
                    begun_db.idempotency)
            (sym begun.0)
            (activate_new-completes now agent_id supplied_id rotation_id entry begun_db db response)
            h
