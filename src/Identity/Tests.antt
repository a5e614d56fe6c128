-- ===== src/Identity/Tests.antt =====
-- The theorems on rotations at a concrete secret store.
use wi_fi_test_orchestrator.Prelude.{
  ℕ, ◌+◌, List, inl, ◌≡◌, refl, Bool, true, false, Option, none, some, All, [], ◌∷◌, ◌==◌,
  if◌then◌else◌,
}
use wi_fi_test_orchestrator.Identity.{
  Ref, same_ref, active_ref, pending_ref, AgentIdentity, RotationState, SecretStore, Local, Met,
  err, transport_failed, no_rotation, pending_stored, Run, activation_uncertain, secret_fits,
  rotate_credential,
}
use wi_fi_test_orchestrator.Identity.Finishing.{Available, Ends, Safe, same_ref_refl}
use wi_fi_test_orchestrator.Identity.Survives.{rotate_credential-Safe}
use wi_fi_test_orchestrator.Identity.Revoking.{
  Emptied, revoking, without_refs, mark_revoked, purge_local_identity, deletes_secrets,
}
use wi_fi_test_orchestrator.Identity.Enrolling.{
  Enrollment, Resumes, sent_request, enroll, enroll-Resumes,
}
use wi_fi_test_orchestrator.Identity.Stuck.{
  PendingStored, uncertain, switched, restarts, restarts_resume,
}

-- The secrets of each reference.
abbrev Kept : Type 0
Kept = Ref → Option ℕ

abbrev store : SecretStore Kept
store = record {
  get = λ ref secrets. secrets ref;
  put = λ key value secrets ref. if same_ref ref key then some value else secrets ref;
  delete = λ key secrets ref. if same_ref ref key then none else secrets ref;
  secure = true;
  get_raises = λ ref secrets. false;
  put_raises = λ ref value secrets. false;
  delete_raises = λ ref secrets. false;
  get-put_same = λ a value s e. rw (same_ref_refl a) refl;
  get-put = λ a b value s e. rw e refl;
  get-delete_same = λ a s e. rw (same_ref_refl a) refl;
  get-delete = λ a b s e. rw e refl;
}

abbrev fingerprint : ℕ → ℕ
fingerprint value = value

abbrev holds : Kept
holds (active_ref n) = if n == 5 then some 50 else none
holds (pending_ref n) = if n == 6 then some 60 else none

abbrev identity : RotationState → AgentIdentity
identity state = record {
  installation_id = 11;
  enrollment_idempotency_key = 12;
  enrollment_reported_at = 13;
  device_id = some 14;
  protocol_version = some 1;
  enrolled_at = some 15;
  agent_id = some 1;
  revoked_at = none;
  active_credential_id = some 5;
  active_credential_version = some 1;
  active_credential_fingerprint = some 50;
  active_credential_ref = some (active_ref 5);
  active_credential_expires_at = some 9000;
  previous_credential_id = none;
  previous_credential_ref = none;
  pending_credential_id = some 6;
  pending_credential_version = some 2;
  pending_credential_fingerprint = some 60;
  pending_credential_ref = some (pending_ref 6);
  pending_credential_expires_at = some 900;
  rotation_id = some 3;
  rotation_idempotency_key = some 7;
  activation_idempotency_key = some 8;
  rotation_state = state;
}

abbrev device : RotationState → Local Kept
device state = record { identity = some (identity state); secrets = holds }

abbrev met : Bool → Met
met answer = record {
  rotation_key = 70;
  activation_key = 71;
  created = some (record {
    credential = 61;
    credential_id = 9;
    credential_version = 3;
    expires_at = 900;
    rotation_id = 4;
  });
  activation_returns = answer;
}

device-Available : Available store fingerprint (device no_rotation)
unfolding secret_fits
device-Available = record {
  identity = identity no_rotation;
  found = refl;
  is_enrolled = refl;
  fits = refl;
}

rotate_credential-Safe_example :
    Safe store fingerprint
      (rotate_credential store fingerprint false (met true) (device no_rotation))
rotate_credential-Safe_example =
    rotate_credential-Safe store fingerprint false (met true) (device no_rotation) device-Available

device-PendingStored : PendingStored store fingerprint (device pending_stored)
unfolding secret_fits
device-PendingStored = record {
  identity = identity pending_stored;
  found = refl;
  is_enrolled = refl;
  phase = inl refl;
  readable = refl;
  fits = refl;
}

restarts_resume_example :
    let s' =
      restarts store fingerprint false (met false ∷ met false ∷ []) (device pending_stored) in
    (s' ≡ uncertain store fingerprint (identity pending_stored) holds)
    × ((rotate_credential store fingerprint false (met false) s').1 ≡ err transport_failed)
    × ((rest : List (Local Kept)) × ((rotate_credential store fingerprint false (met true) s').0
          ≡ s' ∷ switched store fingerprint (identity pending_stored) holds ∷ rest))
    × Available store fingerprint (switched store fingerprint (identity pending_stored) holds)
unfolding device-PendingStored
restarts_resume_example =
    restarts_resume store fingerprint false (met false) (met false) (met true) (met false ∷ [])
      (device pending_stored) device-PendingStored refl (refl, (refl, tt)) refl refl

deletes_secrets_example :
    let row = identity activation_uncertain in
    let s = device activation_uncertain in
    ((rest : Run Kept) × (mark_revoked store fingerprint 900 s
        ≡ (record s { identity = some (revoking 900 row) } ∷ rest.0, rest.1))
      × Emptied store fingerprint row
          (some (revoking 900 row))
          (some (without_refs (revoking 900 row)))
          rest)
    × Emptied store fingerprint row (some row) none (purge_local_identity store fingerprint s)
deletes_secrets_example =
    deletes_secrets store fingerprint 900 (identity activation_uncertain)
      (device activation_uncertain) refl

abbrev enrollment : ℕ → Enrollment
enrollment n = record {
  installation_id = n;
  idempotency_key = n + 1;
  reported_at = n + 2;
  response = λ request. some (record {
    device_id = 14;
    agent_id = 1;
    protocol_version = 1;
    server_received_at = 15;
    credential = 50;
    credential_id = 5;
    credential_version = 1;
    expires_at = 9000;
  });
}

abbrev new_device : Local Kept
new_device = record { identity = none; secrets = λ ref. none }

enroll-Resumes_example :
    All
      (Resumes store fingerprint false (enrollment 21) (sent_request (enrollment 11) none))
      (enroll store fingerprint false (enrollment 11) new_device).0
    × Ends store fingerprint (enroll store fingerprint false (enrollment 11) new_device).1
enroll-Resumes_example =
    enroll-Resumes store fingerprint false (enrollment 11) (enrollment 21) new_device
