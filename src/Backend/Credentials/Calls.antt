-- ===== src/Backend/Credentials/Calls.antt =====
-- Calls of the service, in any order, after an agent was revoked.
use wi_fi_test_orchestrator.Prelude.{ℕ, ◌≡◌, refl, some, List, [], ◌∷◌, arith, ==_iff}
use wi_fi_test_orchestrator.Prelude.Table.{find, find-update, find-eq-some}
use wi_fi_test_orchestrator.Prelude.Unique.{Unique, Unique-update}
use wi_fi_test_orchestrator.Prelude.Counts.{count-update_self}
use wi_fi_test_orchestrator.Backend.Presence.{Agent, agent_is, barred}
use wi_fi_test_orchestrator.Backend.Credentials.{
  Db, AgentCredentialService, Fresh, live_of, revoke_by, revoke_row, revoke_credential,
  revoke_agent, revoke_all, agent_revoked,
}
use wi_fi_test_orchestrator.Backend.Credentials.Rotation.{create_rotation}
use wi_fi_test_orchestrator.Backend.Credentials.Activation.{activate_rotation}
use wi_fi_test_orchestrator.Backend.Credentials.Gone.{
  credential_id, Gone, revoke_owned-Gone, revoke_all-Gone,
}
use wi_fi_test_orchestrator.Backend.Credentials.Creates.{create_started-Gone}
use wi_fi_test_orchestrator.Backend.Credentials.Activates.{activate_started-Gone}

-- A call of a method of the service.
pub data Call : Type 0 where
  create : Fresh → ℕ → ℕ → ℕ → ℕ → ℕ → Call
  activate_one : ℕ → ℕ → ℕ → ℕ → ℕ → ℕ → ℕ → Call
  revoke_one : ℕ → ℕ → ℕ → ℕ → Call
  revoke_every : ℕ → ℕ → ℕ → Call

module _ {Secret : Type 0} (service : AgentCredentialService Secret) where
  unfoldable pub call : Call → Db Secret → Db Secret
  call (create drawn now agent_id active_id fingerprint key) db =
      (create_rotation service drawn now agent_id active_id fingerprint key db).1
  call (activate_one record_id now agent_id supplied_id rotation_id fingerprint key) db =
      (activate_rotation service record_id now agent_id supplied_id rotation_id fingerprint key
        db).1
  call (revoke_one now agent_id credential_id actor_id) db =
      (revoke_credential now agent_id credential_id actor_id db).1
  call (revoke_every now agent_id actor_id) db = (revoke_agent now agent_id actor_id db).1

  unfoldable pub calls : List Call → Db Secret → Db Secret
  unfolding call
  calls [] db = db
  calls (c ∷ cs) db = calls cs (call c db)

  call-Gone : (c : Call) (g : ℕ) (db : Db Secret) → Gone g db → Gone g (call c db)
  unfolding call create_rotation activate_rotation revoke_credential revoke_agent
  call-Gone (create drawn now agent_id active_id fingerprint key) g db w =
      create_started-Gone service drawn now agent_id active_id g _ _ db w w
  call-Gone (activate_one record_id now agent_id supplied_id rotation_id fingerprint key) g db w =
      activate_started-Gone service now agent_id supplied_id rotation_id g _ _ db w w
  call-Gone (revoke_one now agent_id credential_id actor_id) g db w =
      revoke_owned-Gone now agent_id actor_id g _ db w
  call-Gone (revoke_every now agent_id actor_id) g db w = revoke_all-Gone now actor_id g _ db w

  calls-Gone : (cs : List Call) (g : ℕ) (db : Db Secret) → Gone g db → Gone g (calls cs db)
  unfolding calls
  calls-Gone [] g db w = w
  calls-Gone (c ∷ cs) g db w = calls-Gone cs g (call c db) (call-Gone c g db w)

  -- On tables whose credentials have different identifiers, for an agent that the tables have: once it
  -- was revoked, whatever calls of the service follow, it is barred and none of its credentials is
  -- active or pending.
  pub revoke_agent-Gone :
      (cs : List Call) (now agent_id actor_id : ℕ) (agent : Agent) (db : Db Secret)
      → Unique credential_id db.credentials
      → find (agent_is agent_id) db.protocol.agents ≡ some agent
      → Gone agent_id (calls cs (revoke_agent now agent_id actor_id db).1)
  unfolding revoke_agent revoke_all barred
  revoke_agent-Gone cs now agent_id actor_id agent db u f =
      calls-Gone cs agent_id (revoke_agent now agent_id actor_id db).1 (
        rw (f, same)
          (record {
            ids =
                Unique-update credential_id (live_of agent_id)
                  (revoke_by now actor_id agent_revoked) db.credentials (λ x. refl) u;
            is_barred =
                rw
                  (
                    find-update (agent_is agent_id) (agent_is agent_id) (revoke_row now actor_id)
                        db.protocol.agents (λ x. refl),
                    f,
                    find-eq-some (agent_is agent_id) db.protocol.agents agent f,
                  )
                  refl;
            none_live =
                count-update_self (live_of agent_id) (revoke_by now actor_id agent_revoked)
                  db.credentials (λ x. ground arith);
          }))
    where
      same : agent.id ≡ agent_id
      same =
          (==_iff agent.id agent_id).0 (find-eq-some (agent_is agent_id) db.protocol.agents agent f)
