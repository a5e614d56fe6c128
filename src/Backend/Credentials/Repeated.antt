-- ===== src/Backend/Credentials/Repeated.antt =====
-- A request of a rotation that is repeated.
use wi_fi_test_orchestrator.Prelude.{
  ℕ, ◌+◌, ◌≡◌, refl, sym, ap, subst, ◌∙◌, true, false, not, none, some, arith, leb, is_some,
  if◌then◌else◌, Bool-cases, inl, inr,
}
use wi_fi_test_orchestrator.Prelude.Table.{find}
use wi_fi_test_orchestrator.Backend.Idempotency.{
  Start, Scope, IdempotencyRecord, Tables, begin, complete_public, complete_secret, complete_with,
  new_record, in_scope, replay_of, secret_window, secret_replay_expired,
}
use wi_fi_test_orchestrator.Backend.Idempotency
use wi_fi_test_orchestrator.Backend.Idempotency.Replay.{begin_fresh, begin-complete_secret}
use wi_fi_test_orchestrator.Backend.Presence.{agent_is, barred}
use wi_fi_test_orchestrator.Backend.Credentials.{
  RotationCreateResponse, Body, Db, AgentCredentialService, Fresh, ok, err, idempotency_error,
  idempotency_replay, credential_is, pending_rotation_of, active_found, rotate_scope,
  write_agent_audit, expire_pending, expire_rotation, created_body, pending, expired,
}
use wi_fi_test_orchestrator.Backend.Credentials.Expires.{
  Created, states_of, create_checked-Created, before_expiry, after_expiry,
}
use wi_fi_test_orchestrator.Backend.Credentials.Rotation.{
  create_rotation, create_started, create_replay, create_new, create_checked, store_rotation,
  rotation_taken,
}

module _ {Secret : Type 0} (service : AgentCredentialService Secret) where
  -- What `begin` gives for a scope without a record.
  abbrev fresh_start : IdempotencyRecord Body → Start Body
  fresh_start entry = record {
    entry = entry;
    replay_body = none;
    replay_status = none;
    is_new = true;
  }

  create_rotation-replays :
      (drawn : Fresh) (now agent_id active_id fingerprint key : ℕ) (start : Start Body)
      (db : Db Secret) (response : RotationCreateResponse)
      → begin service.cipher now drawn.record_id
          (rotate_scope agent_id key)
          fingerprint
          true
          db.idempotency
        ≡ (Idempotency.ok start, db.idempotency)
      → start.is_new ≡ false
      → start.replay_body ≡ some (created_body response)
      → create_rotation service drawn now agent_id active_id fingerprint key db
        ≡ (ok response, write_agent_audit none agent_id idempotency_replay response.rotation_id db)
  unfolding create_rotation create_started create_replay
  create_rotation-replays drawn now agent_id active_id fingerprint key start db response b n r =
      rw (b, n, r) refl

  create_rotation-late :
      (drawn : Fresh) (now agent_id active_id fingerprint key : ℕ) (db : Db Secret)
      → begin service.cipher now drawn.record_id
          (rotate_scope agent_id key)
          fingerprint
          true
          db.idempotency
        ≡ (Idempotency.err secret_replay_expired, db.idempotency)
      → create_rotation service drawn now agent_id active_id fingerprint key db
        ≡ (err (idempotency_error secret_replay_expired), expire_pending now agent_id db)
  unfolding create_rotation create_started
  create_rotation-late drawn now agent_id active_id fingerprint key db b = rw b refl

  -- The idempotency tables after a rotation that was accepted.
  create_checked-completes :
      (drawn : Fresh) (now agent_id active_id : ℕ) (entry : IdempotencyRecord Body)
      (db before : Db Secret) (response : RotationCreateResponse)
      → (create_checked service drawn now agent_id active_id entry db before).0 ≡ ok response
      → (create_checked service drawn now agent_id active_id entry db before).1.idempotency
        ≡ complete_secret service.cipher now entry (created_body response) 201 db.idempotency
  unfolding create_checked store_rotation
  create_checked-completes drawn now agent_id active_id entry db before response h =
      elim (Bool-cases (is_some (find (pending_rotation_of agent_id) db.rotations))) [
        | inl a ↦ absurd (ground (arith, h, a))
        | inr a ↦
            elim (Bool-cases (not (active_found (find (credential_is active_id) db.credentials)))) [
              | inl b ↦ absurd (ground (arith, h, a, b))
              | inr b ↦ elim (Bool-cases (rotation_taken service drawn agent_id db)) [
                | inl c ↦ absurd (ground (arith, h, a, b, c))
                | inr c ↦
                    rw (a, b, c)
                      (ap
                        (λ r.
                          complete_secret service.cipher now entry (created_body r) 201
                            db.idempotency)
                        (ground (arith, h, a, b, c)))
              ]
            ]
      ]

  expire_pending-idempotency :
      (now agent_id : ℕ) (db : Db Secret)
      → (expire_pending now agent_id db).idempotency ≡ db.idempotency
  unfolding expire_pending expire_rotation
  expire_pending-idempotency now agent_id db = ground arith

  create_new-completes :
      (drawn : Fresh) (now agent_id active_id : ℕ) (entry : IdempotencyRecord Body)
      (db before : Db Secret) (response : RotationCreateResponse)
      → (create_started service drawn now agent_id active_id
          (Idempotency.ok (fresh_start entry))
          db
          before).0
        ≡ ok response
      → (create_started service drawn now agent_id active_id
          (Idempotency.ok (fresh_start entry))
          db
          before).1.idempotency
        ≡ complete_secret service.cipher now entry (created_body response) 201 db.idempotency
  unfolding create_started create_new
  create_new-completes drawn now agent_id active_id entry db before response h =
      elim (Bool-cases (barred (find (agent_is agent_id) db.protocol.agents))) [
        | inl a ↦ absurd (ground (arith, h, a))
        | inr a ↦ rw a (
            create_checked-completes drawn now agent_id active_id entry
              (expire_pending now agent_id db) before response (ground (arith, h, a))
            ∙ ap (complete_secret service.cipher now entry (created_body response) 201)
                (expire_pending-idempotency now agent_id db))
      ]

  create_new-Created :
      (drawn : Fresh) (now agent_id active_id : ℕ) (entry : IdempotencyRecord Body)
      (db before : Db Secret) (response : RotationCreateResponse)
      → (create_started service drawn now agent_id active_id
          (Idempotency.ok (fresh_start entry))
          db
          before).0
        ≡ ok response
      → Created service drawn now agent_id active_id response
          (create_started service drawn now agent_id active_id
            (Idempotency.ok (fresh_start entry))
            db
            before).1
  unfolding create_started create_new
  create_new-Created drawn now agent_id active_id entry db before response h =
      elim (Bool-cases (barred (find (agent_is agent_id) db.protocol.agents))) [
        | inl a ↦ absurd (ground (arith, h, a))
        | inr a ↦ rw a (
            create_checked-Created service drawn now agent_id active_id entry
              (expire_pending now agent_id db) before response (ground (arith, h, a)))
      ]

  create_rotation-Created :
      (drawn : Fresh) (now agent_id active_id fingerprint key : ℕ) (db : Db Secret)
      (response : RotationCreateResponse)
      → find (in_scope (rotate_scope agent_id key)) db.idempotency.records ≡ none
      → (create_rotation service drawn now agent_id active_id fingerprint key db).0 ≡ ok response
      → Created service drawn now agent_id active_id response
          (create_rotation service drawn now agent_id active_id fingerprint key db).1
  unfolding create_rotation
  create_rotation-Created drawn now agent_id active_id fingerprint key db response f h =
      let scope = rotate_scope agent_id key in
      let begun = record db {
        idempotency =
            (begin service.cipher now drawn.record_id scope fingerprint true db.idempotency).1;
      } in
      subst
        (λ o.
          (create_started service drawn now agent_id active_id o begun db).0 ≡ ok response
          → Created service drawn now agent_id active_id response
              (create_started service drawn now agent_id active_id o begun db).1)
        (sym
          (begin_fresh service.cipher now drawn.record_id scope fingerprint true db.idempotency f))
        (create_new-Created drawn now agent_id active_id
          (new_record service.cipher now drawn.record_id scope fingerprint) begun db response)
        h

  same_request :
      (drawn drawn' : Fresh) (now later agent_id active_id active_id' fingerprint key : ℕ)
      (db : Db Secret) (response : RotationCreateResponse)
      → find (in_scope (rotate_scope agent_id key)) db.idempotency.records ≡ none
      → find (replay_of drawn.record_id) db.idempotency.replays ≡ none
      → (create_rotation service drawn now agent_id active_id fingerprint key db).0 ≡ ok response
      → let db' = (create_rotation service drawn now agent_id active_id fingerprint key db).1 in
        create_rotation service drawn' later agent_id active_id' fingerprint key db' ≡ (
          if leb (now + secret_window) later
          then (err (idempotency_error secret_replay_expired), expire_pending later agent_id db')
          else (
            ok response,
            write_agent_audit none agent_id idempotency_replay response.rotation_id db',
          ))
  unfolding create_rotation
  same_request drawn drawn' now later agent_id active_id active_id' fingerprint key db response f r
        h =
      elim (Bool-cases (leb (now + secret_window) later)) [
        | inl e ↦ rw e (
            create_rotation-late drawn' later agent_id active_id' fingerprint key after (
              subst
                (λ t.
                  begin service.cipher later drawn'.record_id scope fingerprint true t
                  ≡ (Idempotency.err secret_replay_expired, t))
                (sym completed) (answer ∙ rw e refl)))
        | inr e ↦ rw e (
            create_rotation-replays drawn' later agent_id active_id' fingerprint key start after
              response
              (subst
                (λ t.
                  begin service.cipher later drawn'.record_id scope fingerprint true t
                  ≡ (Idempotency.ok start, t))
                (sym completed) (answer ∙ rw e refl))
              refl refl)
      ]
    where
      scope : Scope
      scope = rotate_scope agent_id key

      entry : IdempotencyRecord Body
      entry = new_record service.cipher now drawn.record_id scope fingerprint

      after : Db Secret
      after = (create_rotation service drawn now agent_id active_id fingerprint key db).1

      begun : Tables Body Secret
      begun = (begin service.cipher now drawn.record_id scope fingerprint true db.idempotency).1

      start : Start Body
      start = record {
        entry = complete_with service.cipher now service.cipher.secret_marker 201 entry;
        replay_body = some (created_body response);
        replay_status = some 201;
        is_new = false;
      }

      stored : Tables Body Secret
      stored = complete_secret service.cipher now entry (created_body response) 201 begun

      answer : begin service.cipher later drawn'.record_id scope fingerprint true stored ≡ (
        (if leb (now + secret_window) later
            then Idempotency.err secret_replay_expired
            else Idempotency.ok start),
        stored,
      )
      answer =
          begin-complete_secret service.cipher now now later drawn.record_id drawn'.record_id scope
            fingerprint (created_body response) 201 db.idempotency f r

      completed : after.idempotency ≡ stored
      completed =
          subst
            (λ o.
              (create_started service drawn now agent_id active_id o
                  (record db { idempotency = begun }) db).0
                ≡ ok response
              → (create_started service drawn now agent_id active_id o
                  (record db { idempotency = begun }) db).1.idempotency
                ≡ stored)
            (sym (
              begin_fresh service.cipher now drawn.record_id scope fingerprint true db.idempotency
                f))
            (create_new-completes drawn now agent_id active_id entry
              (record db { idempotency = begun }) db response)
            h

  -- For a key that the agent has not used for a rotation and an identifier of a record without a
  -- replay: once a rotation was created, the same request is answered until 15 minutes later by the same
  -- response, secret included, and changes nothing but the audit; the rotation and the credential that
  -- it names are still pending. From then on it fails, the rotation and the credential that the
  -- response names are expired, and no rotation of the agent is pending.
  pub create_rotation-again :
      (drawn drawn' : Fresh) (now later agent_id active_id active_id' fingerprint key : ℕ)
      (db : Db Secret) (response : RotationCreateResponse)
      → find (in_scope (rotate_scope agent_id key)) db.idempotency.records ≡ none
      → find (replay_of drawn.record_id) db.idempotency.replays ≡ none
      → (create_rotation service drawn now agent_id active_id fingerprint key db).0 ≡ ok response
      → let db' = (create_rotation service drawn now agent_id active_id fingerprint key db).1 in
        let again = create_rotation service drawn' later agent_id active_id' fingerprint key db' in
        let is_late = leb (now + secret_window) later in
        (again ≡ (
          if is_late
          then (err (idempotency_error secret_replay_expired), expire_pending later agent_id db')
          else (
            ok response,
            write_agent_audit none agent_id idempotency_replay response.rotation_id db',
          )))
        × (states_of response again.1
            ≡ (if is_late then (some expired, some expired) else (some pending, some pending)))
        × (is_some (find (pending_rotation_of agent_id) again.1.rotations) ≡ not is_late)
  create_rotation-again drawn drawn' now later agent_id active_id active_id' fingerprint key db
        response f r h =
      let e =
        same_request drawn drawn' now later agent_id active_id active_id' fingerprint key db
          response f r h in
      let c =
        create_rotation-Created drawn now agent_id active_id fingerprint key db response f h in
      elim (Bool-cases (leb (now + secret_window) later)) [
        | inl l ↦
            let states = after_expiry service drawn now later agent_id active_id response _ c l in
            (e, rw (e, l) states.0, rw (e, l) states.1)
        | inr l ↦
            let states = before_expiry service drawn now agent_id active_id response _ c in
            (e, rw (e, l) states.0, rw (e, l) states.1)
      ]
