-- ===== src/Identity.antt =====
-- The rotation of a device's credential: `rotate`, `_finalize_activated`, `active_credential_async` and
-- the two helpers on secrets of agents/desktop/src/wto_desktop_agent/application/identity.py, over
-- `identity` and `update_identity` of infrastructure/sqlite/store.py. A run is the list of the states
-- that it writes, in their order, and how it ends: a crash leaves one of them. Identifiers, values and
-- times are naturals; the column updated_at, which no method reads, is left out. A column that is null
-- is not the text `None`, under which no secret is kept.
mod Types
pub mod Finishing
pub mod Survives
pub mod Stuck
pub mod Revoking
pub mod Enrolling
mod Tests
pub use Types.{
  Ref, same_ref, RotationState, AgentIdentity, SecretStore, Local, Error, Result, RotationResponse,
  Met, Run, followed, and_then, stay, raise, write, change_secrets, update_identity, active_ref,
  pending_ref, no_rotation, requested, pending_stored, activation_uncertain, rotation_activated,
  identity_revoked, secure_store_unavailable, identity_not_enrolled, state_conflict,
  transport_failed, secret_store_failed, ok, err,
}
unfoldable pub use Types.{continue_with}
use wi_fi_test_orchestrator.Prelude.{
  ℕ, ◌≡◌, Bool, true, false, not, ◌&&◌, ◌||◌, Option, none, some, List, [], ◌∷◌, ◌++◌, ◌==◌,
  is_none, is_some, if◌then◌else◌,
}

abbrev pub cleared : AgentIdentity → AgentIdentity
cleared identity = record identity {
  previous_credential_id = none;
  previous_credential_ref = none;
  pending_credential_id = none;
  pending_credential_version = none;
  pending_credential_fingerprint = none;
  pending_credential_ref = none;
  pending_credential_expires_at = none;
  rotation_id = none;
  rotation_idempotency_key = none;
  activation_idempotency_key = none;
  rotation_state = no_rotation;
}

abbrev pub differs : Ref → Option Ref → Bool
differs ref none = true
differs ref (some other) = not (same_ref other ref)

abbrev pub with_active : AgentIdentity → AgentIdentity
with_active identity = record identity {
  previous_credential_id = identity.active_credential_id;
  previous_credential_ref = identity.active_credential_ref;
  active_credential_id = identity.pending_credential_id;
  active_credential_version = identity.pending_credential_version;
  active_credential_fingerprint = identity.pending_credential_fingerprint;
  active_credential_ref = identity.pending_credential_ref;
  active_credential_expires_at = identity.pending_credential_expires_at;
  rotation_state = rotation_activated;
}

abbrev pub with_keys : Met → AgentIdentity → AgentIdentity
with_keys met identity = record identity {
  rotation_idempotency_key = some met.rotation_key;
  activation_idempotency_key = some met.activation_key;
  rotation_state = requested;
}

module _ {Secrets : Type 0} (store : SecretStore Secrets) (fingerprint : ℕ → ℕ) where
  unfoldable pub ensure_found : Ref → ℕ → Option ℕ → Local Secrets → Run Secrets
  ensure_found ref value none s =
      change_secrets (store.put_raises ref value s.secrets) (store.put ref value s.secrets) s
  ensure_found ref value (some current) s =
      if fingerprint current == fingerprint value then stay s else raise state_conflict

  -- `_ensure_secret_value`
  unfoldable pub ensure_secret_value : Ref → ℕ → Local Secrets → Run Secrets
  unfolding ensure_found
  ensure_secret_value ref value s =
      if store.get_raises ref s.secrets
      then raise secret_store_failed
      else ensure_found ref value (store.get ref s.secrets) s

  -- `_ensure_secret_absent`
  unfoldable pub ensure_secret_absent : Ref → Local Secrets → Run Secrets
  ensure_secret_absent ref s =
      if store.get_raises ref s.secrets
      then raise secret_store_failed
      else if is_some (store.get ref s.secrets)
      then change_secrets (store.delete_raises ref s.secrets) (store.delete ref s.secrets) s
      else stay s

  -- Whether the read of the secret under a reference raises.
  abbrev pub read_raises : Option Ref → Secrets → Bool
  read_raises none secrets = false
  read_raises (some ref) secrets = store.get_raises ref secrets

  abbrev pub value_fits : ℕ → Option ℕ → Bool
  value_fits expected none = false
  value_fits expected (some value) = fingerprint value == expected

  -- Whether a secret is found under a reference, with the fingerprint of the column.
  unfoldable pub secret_fits : Option Ref → Option ℕ → Secrets → Bool
  secret_fits (some ref) (some expected) secrets = value_fits expected (store.get ref secrets)
  secret_fits _ _ secrets = false

  -- Whether `active_credential_async` returns, if its read of the secret does not raise.
  unfoldable pub has_active_credential : AgentIdentity → Secrets → Bool
  unfolding secret_fits
  has_active_credential identity secrets =
      is_some identity.agent_id
      && is_none identity.revoked_at
      && secret_fits identity.active_credential_ref identity.active_credential_fingerprint secrets

  unfoldable pub drop_previous : Option Ref → Option Ref → Local Secrets → Run Secrets
  unfolding ensure_secret_absent
  drop_previous none active s = stay s
  drop_previous (some previous) active s =
      if differs previous active then ensure_secret_absent previous s else stay s

  -- `_finalize_activated`
  unfoldable pub finalize_activated : AgentIdentity → Local Secrets → Run Secrets
  unfolding drop_previous
  finalize_activated identity s =
      and_then (drop_previous identity.previous_credential_ref identity.active_credential_ref s)
        (update_identity (cleared identity))

  -- The branch of the states `pending_stored` and `activation_uncertain`.
  unfoldable pub activate_pending : Met → AgentIdentity → Local Secrets → Run Secrets
  unfolding secret_fits finalize_activated
  activate_pending met identity s =
      if read_raises identity.pending_credential_ref s.secrets
      then raise secret_store_failed
      else if not (
          secret_fits identity.pending_credential_ref identity.pending_credential_fingerprint
            s.secrets)
      then raise identity_not_enrolled
      else and_then (update_identity (record identity { rotation_state = activation_uncertain }) s)
          (λ s'.
            if not met.activation_returns
            then raise transport_failed
            else and_then (update_identity (with_active identity) s')
                (finalize_activated (with_active identity)))

  abbrev pub with_pending : RotationResponse → AgentIdentity → AgentIdentity
  with_pending response identity = record identity {
    pending_credential_id = some response.credential_id;
    pending_credential_version = some response.credential_version;
    pending_credential_fingerprint = some (fingerprint response.credential);
    pending_credential_ref = some (pending_ref response.credential_id);
    pending_credential_expires_at = some response.expires_at;
    rotation_id = some response.rotation_id;
    rotation_state = pending_stored;
  }

  unfoldable pub store_pending :
      Met → Option RotationResponse → AgentIdentity → Local Secrets → Run Secrets
  unfolding ensure_secret_value activate_pending
  store_pending met none identity s = raise transport_failed
  store_pending met (some response) identity s =
      and_then (ensure_secret_value (pending_ref response.credential_id) response.credential s)
        (λ s'.
          and_then (update_identity (with_pending response identity) s')
            (activate_pending met (with_pending response identity)))

  -- From the state `requested` on.
  unfoldable pub request_pending : Met → AgentIdentity → Local Secrets → Run Secrets
  unfolding has_active_credential store_pending
  request_pending met identity s =
      if is_some identity.agent_id
        && is_none identity.revoked_at
        && read_raises identity.active_credential_ref s.secrets
      then raise secret_store_failed
      else if not (has_active_credential identity s.secrets)
      then raise identity_not_enrolled
      else store_pending met met.created identity s

  unfoldable pub rotate_from : Met → RotationState → AgentIdentity → Local Secrets → Run Secrets
  unfolding request_pending activate_pending finalize_activated
  rotate_from met no_rotation identity s =
      and_then (update_identity (with_keys met identity) s)
        (request_pending met (with_keys met identity))
  rotate_from met requested identity s = request_pending met identity s
  rotate_from met pending_stored identity s = activate_pending met identity s
  rotate_from met activation_uncertain identity s = activate_pending met identity s
  rotate_from met rotation_activated identity s = finalize_activated identity s
  rotate_from met identity_revoked identity s = stay s

  unfoldable pub rotate_found : Met → Option AgentIdentity → Local Secrets → Run Secrets
  unfolding rotate_from
  rotate_found met none s = raise identity_not_enrolled
  rotate_found met (some identity) s =
      if is_none identity.agent_id
      then raise identity_not_enrolled
      else rotate_from met identity.rotation_state identity s

  -- `rotate`
  unfoldable pub rotate_credential : Bool → Met → Local Secrets → Run Secrets
  unfolding rotate_found
  rotate_credential allow_insecure_development_store met s =
      if not store.secure && not allow_insecure_development_store
      then raise secure_store_unavailable
      else rotate_found met s.identity s
