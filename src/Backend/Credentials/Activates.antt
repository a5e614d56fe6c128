-- ===== src/Backend/Credentials/Activates.antt =====
-- `activate_rotation` gives a revoked agent no credential.
use wi_fi_test_orchestrator.Prelude.{
  ℕ, ◌≡◌, refl, true, false, not, ◌||◌, Option, none, some, List, arith, ◌==◌, leb, is_some,
  if◌then◌else◌, Bool-cases, inl, inr,
}
use wi_fi_test_orchestrator.Prelude.Table.{find, update, find-update}
use wi_fi_test_orchestrator.Prelude.Unique.{Unique-update, find-key}
use wi_fi_test_orchestrator.Prelude.Counts.{count-update_key, count-find}
use wi_fi_test_orchestrator.Backend.Idempotency.{
  Start, IdempotencyRecord, begin, secret_replay_expired, idempotency_conflict,
  idempotency_in_progress, secret_unreadable,
}
use wi_fi_test_orchestrator.Backend.Idempotency
use wi_fi_test_orchestrator.Backend.Presence.{agent_is, barred}
use wi_fi_test_orchestrator.Backend.Credentials.{
  AgentCredential, AgentCredentialRotation, Body, Db, AgentCredentialService, is_pending,
  credential_is, rotation_is, live_of, active_of, rotate_out, activate, created_body,
  activated_body, marker_body,
}
use wi_fi_test_orchestrator.Backend.Credentials.Activation.{
  activate_started, activate_replay, activate_found, activate_pair, switch,
}
use wi_fi_test_orchestrator.Backend.Credentials.Gone.{credential_id, Without, Gone, Without-update}

module _ {Secret : Type 0} (service : AgentCredentialService Secret) where
  -- The credential that becomes active was pending, so it is not one of the agent's.
  switch-Gone :
      (now agent_id g : ℕ) (rotation : AgentCredentialRotation) (next previous : AgentCredential)
      (entry : IdempotencyRecord Body) (db : Db Secret)
      → Gone g db
      → find (credential_is rotation.pending_credential_id) db.credentials ≡ some next
      → is_pending next.state ≡ true
      → Gone g (switch service now agent_id rotation next previous entry db).1
  unfolding switch
  switch-Gone now agent_id g rotation next previous entry db w f p = record {
    ids =
        Unique-update credential_id (credential_is next.id)
          (activate now service.agent_credential_days) rotated (λ x. refl) first.ids;
    is_barred = w.is_barred;
    none_live =
        count-update_key credential_id next.id (live_of g)
          (activate now service.agent_credential_days) rotated
          (if next.id == previous.id then rotate_out now next else next) first.ids
          (rw
            (
              find-update (credential_is previous.id) (credential_is next.id) (rotate_out now)
                  db.credentials (λ x. refl),
              by_id,
            )
            refl)
          (elim (Bool-cases (next.id == previous.id)) [
            | inl e ↦ rw (e, foreign) refl
            | inr e ↦ rw (e, foreign) refl
          ])
          first.none_live;
  }
    where
      rotated : List AgentCredential
      rotated = update (credential_is previous.id) (rotate_out now) db.credentials

      first : Without g db.protocol.agents rotated
      first =
          Without-update g db.protocol.agents db.credentials (credential_is previous.id)
            (rotate_out now) (λ x. refl) (λ x. ground arith) w

      by_id : find (credential_is next.id) db.credentials ≡ some next
      by_id =
          find-key credential_id (credential_is rotation.pending_credential_id) db.credentials next
            w.ids f

      foreign : (next.agent_id == g) ≡ false
      foreign = elim (Bool-cases (next.agent_id == g)) [
        | inr e ↦ e
        | inl e ↦
            let some_live =
              count-find (live_of g) (credential_is next.id) db.credentials next by_id
                (ground (arith, e, p)) in
            absurd (omega (arith, some_live, w.none_live))
      ]

  activate_pair-Gone :
      (now agent_id g : ℕ) (rotation : AgentCredentialRotation)
      (next previous : Option AgentCredential) (entry : IdempotencyRecord Body)
      (db before : Db Secret)
      → find (credential_is rotation.pending_credential_id) db.credentials ≡ next
      → Gone g db
      → Gone g before
      → Gone g (activate_pair service now agent_id rotation next previous entry db before).1
  unfolding activate_pair
  activate_pair-Gone now agent_id g rotation none previous entry db before f w w' = w'
  activate_pair-Gone now agent_id g rotation (some next) none entry db before f w w' = w'
  activate_pair-Gone now agent_id g rotation (some next) (some previous) entry db before f w w' =
      elim (Bool-cases (not (is_pending next.state))) [
        | inl a ↦ rw a w'
        | inr a ↦
            elim (Bool-cases (
              is_some (
                find (active_of next.agent_id)
                  (update (credential_is previous.id) (rotate_out now) db.credentials)))) [
                    | inl b ↦ rw (a, b) w'
                    | inr b ↦
                        rw (a, b)
                          (switch-Gone now agent_id g rotation next previous entry db w f
                            (ground (arith, a)))
                  ]
      ]

  activate_found-Gone :
      (now agent_id supplied_id g : ℕ) (o : Option AgentCredentialRotation)
      (entry : IdempotencyRecord Body) (db before : Db Secret)
      → Gone g db
      → Gone g before
      → Gone g (activate_found service now agent_id supplied_id o entry db before).1
  unfolding activate_found
  activate_found-Gone now agent_id supplied_id g none entry db before w w' = w'
  activate_found-Gone now agent_id supplied_id g (some rotation) entry db before w w' =
      elim (Bool-cases (
        not (rotation.agent_id == agent_id)
        || not (rotation.pending_credential_id == supplied_id))) [
          | inl a ↦ rw a w'
          | inr a ↦
              elim (Bool-cases (not (is_pending rotation.state) || leb rotation.expires_at now)) [
                | inl b ↦ rw (a, b) w'
                | inr b ↦
                    rw (a, b)
                      (activate_pair-Gone now agent_id g rotation
                        (find (credential_is rotation.pending_credential_id) db.credentials)
                        (find (credential_is rotation.previous_credential_id) db.credentials) entry
                        db before refl w w')
              ]
        ]

  pub activate_started-Gone :
      (now agent_id supplied_id rotation_id g : ℕ) (r : Idempotency.Result (Start Body))
      (db before : Db Secret)
      → Gone g db
      → Gone g before
      → Gone g (activate_started service now agent_id supplied_id rotation_id r db before).1
  unfolding activate_started activate_replay
  activate_started-Gone now agent_id supplied_id rotation_id g (Idempotency.err e) db before w w' =
      w'
  activate_started-Gone now agent_id supplied_id rotation_id g (Idempotency.ok start) db before w
        w' =
      elim (Bool-cases (not start.is_new)) [
        | inl e ↦ rw e (replayed start.replay_body)
        | inr e ↦ elim (Bool-cases (barred (find (agent_is agent_id) db.protocol.agents))) [
          | inl a ↦ rw (e, a) w'
          | inr a ↦
              rw (e, a)
                (activate_found-Gone now agent_id supplied_id g
                  (find (rotation_is rotation_id) db.rotations) start.entry db before w w')
        ]
      ]
    where
      replayed : (o : Option Body) → Gone g (activate_replay service agent_id o db before).1
      replayed (some (activated_body response)) = w
      replayed (some (created_body response)) = w'
      replayed (some marker_body) = w'
      replayed none = w'
