-- ===== src/Backend/Credentials/Tests.antt =====
-- The theorems on credentials at concrete tables.
use wi_fi_test_orchestrator.Prelude.{
  ℕ, ◌+◌, ◌≡◌, refl, true, not, is_some, Option, none, some, [], ◌∷◌, ◌==◌, ==_refl, leb,
  if◌then◌else◌,
}
use wi_fi_test_orchestrator.Prelude.Table.{find, update}
use wi_fi_test_orchestrator.Prelude.Unique.{Unique}
use wi_fi_test_orchestrator.Backend.Idempotency.{
  begin, begin_by, in_scope, replay_of, secret_window, secret_replay_expired,
}
use wi_fi_test_orchestrator.Backend.Presence.{Agent, barred}
use wi_fi_test_orchestrator.Backend.Credentials.{
  AgentCredential, AgentCredentialService, RotationCreateResponse, RotationActivateResponse, Body,
  pending_rotation_of, Db, Fresh, active, pending, expired, rotate_scope, activate_scope,
  marker_body, ok, err, idempotency_error, idempotency_replay, write_agent_audit, expire_pending,
  expire_rotation, revoke_agent, highest,
}
use wi_fi_test_orchestrator.Backend.Credentials.Rotation.{
  create_rotation, create_started, create_new, create_checked, store_rotation,
}
use wi_fi_test_orchestrator.Backend.Credentials.Activation.{
  activate_rotation, activate_started, activate_found, activate_pair, switch,
}
use wi_fi_test_orchestrator.Backend.Credentials.Gone.{credential_id, Gone}
use wi_fi_test_orchestrator.Backend.Credentials.Calls.{
  create, activate_one, revoke_one, calls, revoke_agent-Gone,
}
use wi_fi_test_orchestrator.Backend.Credentials.Again.{activate_rotation-again}
use wi_fi_test_orchestrator.Backend.Credentials.Expires.{states_of}
use wi_fi_test_orchestrator.Backend.Credentials.Repeated.{create_rotation-again}

abbrev Sealed : Type 0
Sealed = Body × ℕ

unseal : Sealed → ℕ → Option Body
unseal (body, n) id = if n == id then some body else none

unseal-seal : (body : Body) (id : ℕ) → unseal (body, id) id ≡ some body
unfolding unseal
unseal-seal body id = rw (==_refl id) refl

abbrev service : AgentCredentialService Sealed
service = record {
  cipher = record {
    encrypt = λ body id. (body, id);
    decrypt = unseal;
    key_version = 1;
    secret_marker = marker_body;
    decrypt-encrypt = unseal-seal;
  };
  digest = λ secret. secret;
  agent_credential_days = 365;
}

abbrev agent : Agent
agent = record {
  id = 1;
  is_active = true;
  disabled_at = none;
  revoked_at = none;
  revoked_by_user_id = none;
  last_seen_at = none;
}

abbrev first : AgentCredential
first = record {
  id = 10;
  agent_id = 1;
  credential_version = 1;
  secret_digest = 5;
  state = active;
  issued_at = 0;
  activated_at = some 0;
  expires_at = 9000;
  revoked_at = none;
  revoked_by_user_id = none;
  revocation_reason = none;
}

-- One agent with an active credential.
abbrev enrolled : Db Sealed
enrolled = record {
  protocol = record { agents = agent ∷ []; manifests = []; presences = []; incompatible = [] };
  credentials = first ∷ [];
  rotations = [];
  idempotency = record { records = []; replays = [] };
  audit = [];
}

abbrev drawn : Fresh
drawn = record { record_id = 20; credential_id = 11; rotation_id = 30; secret = 6 }

abbrev drawn_later : Fresh
drawn_later = record { record_id = 21; credential_id = 12; rotation_id = 31; secret = 7 }

abbrev created : RotationCreateResponse
created = record {
  rotation_id = 30;
  expires_at = 1000;
  credential_id = 11;
  credential_version = 2;
  credential = record { locator = 11; secret = 6 };
  issued_at = 100;
}

created_is : (create_rotation service drawn 100 1 10 77 40 enrolled).0 ≡ ok created
unfolding create_rotation create_started create_new create_checked store_rotation expire_pending
    expire_rotation begin begin_by highest find update barred
created_is = refl

no_record : find (in_scope (rotate_scope 1 40)) enrolled.idempotency.records ≡ none
unfolding find
no_record = refl

no_replay : find (replay_of 20) enrolled.idempotency.replays ≡ none
unfolding find
no_replay = refl

create_rotation-again_example :
    let db' = (create_rotation service drawn 100 1 10 77 40 enrolled).1 in
    let again = create_rotation service drawn_later 1000 1 10 77 40 db' in
    (again ≡ (
      if leb (100 + secret_window) 1000
      then (err (idempotency_error secret_replay_expired), expire_pending 1000 1 db')
      else (ok created, write_agent_audit none 1 idempotency_replay 30 db')))
    × (states_of created again.1 ≡ (
        if leb (100 + secret_window) 1000
        then (some expired, some expired)
        else (some pending, some pending)))
    × (is_some (find (pending_rotation_of 1) again.1.rotations)
        ≡ not (leb (100 + secret_window) 1000))
create_rotation-again_example =
    create_rotation-again service drawn drawn_later 100 1000 1 10 10 77 40 enrolled created
      no_record no_replay created_is

abbrev rotating : Db Sealed
rotating = record enrolled {
  credentials =
      first
      ∷ record {
        id = 11;
        agent_id = 1;
        credential_version = 2;
        secret_digest = 6;
        state = pending;
        issued_at = 100;
        activated_at = none;
        expires_at = 1000;
        revoked_at = none;
        revoked_by_user_id = none;
        revocation_reason = none;
      }
      ∷ [];
  rotations =
      record {
        id = 30;
        agent_id = 1;
        previous_credential_id = 10;
        pending_credential_id = 11;
        state = pending;
        created_at = 100;
        expires_at = 1000;
        activated_at = none;
      }
      ∷ [];
}

abbrev switched : RotationActivateResponse
switched = record {
  rotation_id = 30;
  credential_id = 11;
  credential_version = 2;
  activated_at = 200;
}

activated_is : (activate_rotation service 22 200 1 11 30 78 41 rotating).0 ≡ ok switched
unfolding activate_rotation activate_started activate_found activate_pair switch begin begin_by find
    update barred
activated_is = refl

no_activation : find (in_scope (activate_scope 1 30 41)) rotating.idempotency.records ≡ none
unfolding find
no_activation = refl

activate_rotation-again_example :
    let db' = (activate_rotation service 22 200 1 11 30 78 41 rotating).1 in
    activate_rotation service 23 300 1 11 30 78 41 db'
    ≡ (ok switched, write_agent_audit none 1 idempotency_replay 30 db')
activate_rotation-again_example =
    activate_rotation-again service 22 23 200 300 1 11 11 30 78 41 rotating switched no_activation
      activated_is

ids_differ : Unique credential_id rotating.credentials
ids_differ = ((refl, tt), (tt, tt))

agent_found : find (λ (a : Agent). a.id == 1) rotating.protocol.agents ≡ some agent
unfolding find
agent_found = refl

revoke_agent-Gone_example : Gone 1 (
    calls service
      (activate_one 22 200 1 11 30 78 41
        ∷ create drawn_later 250 1 11 77 42
        ∷ revoke_one 300 1 10 9
        ∷ [])
      (revoke_agent 150 1 9 rotating).1)
revoke_agent-Gone_example =
    revoke_agent-Gone service
      (activate_one 22 200 1 11 30 78 41
        ∷ create drawn_later 250 1 11 77 42
        ∷ revoke_one 300 1 10 9
        ∷ [])
      150 1 9 agent rotating ids_differ agent_found
