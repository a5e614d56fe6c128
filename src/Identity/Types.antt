-- ===== src/Identity/Types.antt =====
-- The row of the identity, the secret store and the runs over them: the columns of `agent_identity`,
-- the calls of the secret store in agents/desktop/src/wto_desktop_agent/application/identity.py, and
-- `update_identity` of infrastructure/sqlite/store.py.
use wi_fi_test_orchestrator.Prelude.{
  ℕ, ◌≡◌, Bool, false, Option, none, some, List, [], ◌∷◌, ◌++◌, ◌==◌, if◌then◌else◌,
}

-- The keys `credential.active.<id>` and `credential.pending.<id>`.
pub data Ref : Type 0 where
  active_ref pending_ref : ℕ → Ref

abbrev pub same_ref : Ref → Ref → Bool
same_ref (active_ref a) (active_ref b) = a == b
same_ref (pending_ref a) (pending_ref b) = a == b
same_ref _ _ = false

-- The text `none` of the column is `no_rotation`.
pub data RotationState : Type 0 where
  no_rotation requested pending_stored activation_uncertain rotation_activated : RotationState
  identity_revoked : RotationState

pub record AgentIdentity : Type 0 where
  pub installation_id : ℕ
  pub enrollment_idempotency_key : ℕ
  pub enrollment_reported_at : ℕ
  pub device_id : Option ℕ
  pub protocol_version : Option ℕ
  pub enrolled_at : Option ℕ
  pub agent_id : Option ℕ
  pub revoked_at : Option ℕ
  pub active_credential_id : Option ℕ
  pub active_credential_version : Option ℕ
  pub active_credential_fingerprint : Option ℕ
  pub active_credential_ref : Option Ref
  pub active_credential_expires_at : Option ℕ
  pub previous_credential_id : Option ℕ
  pub previous_credential_ref : Option Ref
  pub pending_credential_id : Option ℕ
  pub pending_credential_version : Option ℕ
  pub pending_credential_fingerprint : Option ℕ
  pub pending_credential_ref : Option Ref
  pub pending_credential_expires_at : Option ℕ
  pub rotation_id : Option ℕ
  pub rotation_idempotency_key : Option ℕ
  pub activation_idempotency_key : Option ℕ
  pub rotation_state : RotationState

-- The secret store of the platform, and which of its calls raise. A call for a key leaves the others,
-- also one that raises; where it does not, a key that is written has its value, and one that is
-- deleted is gone.
pub record SecretStore (Secrets : Type 0) : Type 0 where
  pub get : Ref → Secrets → Option ℕ
  pub put : Ref → ℕ → Secrets → Secrets
  pub delete : Ref → Secrets → Secrets
  pub secure : Bool
  pub get_raises : Ref → Secrets → Bool
  pub put_raises : Ref → ℕ → Secrets → Bool
  pub delete_raises : Ref → Secrets → Bool
  pub get-put_same :
      (a : Ref) (value : ℕ) (s : Secrets)
      → put_raises a value s ≡ false
      → get a (put a value s) ≡ some value
  pub get-put :
      (a b : Ref) (value : ℕ) (s : Secrets) → same_ref a b ≡ false → get a (put b value s) ≡ get a s
  pub get-delete_same :
      (a : Ref) (s : Secrets) → delete_raises a s ≡ false → get a (delete a s) ≡ none
  pub get-delete : (a b : Ref) (s : Secrets) → same_ref a b ≡ false → get a (delete b s) ≡ get a s

pub record Local (Secrets : Type 0) : Type 0 where
  pub identity : Option AgentIdentity
  pub secrets : Secrets

pub data Error : Type 0 where
  secure_store_unavailable identity_not_enrolled state_conflict transport_failed : Error
  secret_store_failed : Error

pub data Result {ℓ} (A : Type ℓ) : Type ℓ where
  ok : A → Result A
  err : Error → Result A

-- The fields of `pending_credential`, and `rotation_id`.
pub record RotationResponse : Type 0 where
  pub credential : ℕ
  pub credential_id : ℕ
  pub credential_version : ℕ
  pub expires_at : ℕ
  pub rotation_id : ℕ

-- What a run meets: the fresh keys, and what the transport returns or raises.
pub record Met : Type 0 where
  pub rotation_key : ℕ
  pub activation_key : ℕ
  pub created : Option RotationResponse
  pub activation_returns : Bool

-- The states that are written, and the state that the run goes on from or its exception.
abbrev pub Run : Type 0 → Type 0
Run Secrets = List (Local Secrets) × Result (Local Secrets)

module _ {Secrets : Type 0} where
  abbrev pub followed : List (Local Secrets) → Run Secrets → Run Secrets
  followed written run = (written ++ run.0, run.1)

  unfoldable pub continue_with :
      List (Local Secrets) → Result (Local Secrets) → (Local Secrets → Run Secrets) → Run Secrets
  continue_with written (ok s) next = followed written (next s)
  continue_with written (err e) next = (written, err e)

  abbrev pub and_then : Run Secrets → (Local Secrets → Run Secrets) → Run Secrets
  and_then run next = continue_with run.0 run.1 next

  abbrev pub stay : Local Secrets → Run Secrets
  stay s = ([], ok s)

  abbrev pub raise : Error → Run Secrets
  raise e = ([], err e)

  abbrev pub write : Local Secrets → Run Secrets
  write s = (s ∷ [], ok s)

  -- A call of the secret store that changes it, and may raise after that.
  abbrev pub change_secrets : Bool → Secrets → Local Secrets → Run Secrets
  change_secrets raises secrets s =
      if raises
      then (record s { secrets = secrets } ∷ [], err secret_store_failed)
      else write (record s { secrets = secrets })

  -- `update_identity`
  abbrev pub update_identity : AgentIdentity → Local Secrets → Run Secrets
  update_identity identity s = write (record s { identity = some identity })
