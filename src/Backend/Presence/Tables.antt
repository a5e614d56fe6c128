-- ===== src/Backend/Presence/Tables.antt =====
-- The tables agents, capability_manifests and agent_presence, and what the methods of the service
-- take, return and raise.
use wi_fi_test_orchestrator.Prelude.{ℕ, Bool, Option, List}

pub data Kind : Type 0 where
  desktop mobile : Kind

pub record Agent : Type 0 where
  pub id : ℕ
  pub is_active : Bool
  pub disabled_at : Option ℕ
  pub revoked_at : Option ℕ
  pub revoked_by_user_id : Option ℕ
  pub last_seen_at : Option ℕ

pub record CapabilityManifest : Type 0 where
  pub id : ℕ
  pub agent_id : ℕ
  pub manifest_sequence : ℕ
  pub generated_at : ℕ
  pub server_received_at : ℕ
  pub document_digest : ℕ

pub record AgentPresence : Type 0 where
  pub agent_id : ℕ
  pub kind : Kind
  pub boot_id : ℕ
  pub sequence : ℕ
  pub payload_digest : ℕ
  pub agent_reported_at : ℕ
  pub server_received_at : ℕ
  pub presence_expires_at : ℕ
  pub manifest_id : ℕ

-- The agents whose entry `agent_protocol.incompatible` the audit has.
pub record Db : Type 0 where
  pub agents : List Agent
  pub manifests : List CapabilityManifest
  pub presences : List AgentPresence
  pub incompatible : List ℕ

-- `integrity` is the failure of the primary key of the manifests.
pub data Error : Type 0 where
  contract_invalid agent_authentication protocol_version clock_skew conflict sequence_conflict :
      Error
  integrity : Error

pub data Result {ℓ} (A : Type ℓ) : Type ℓ where
  ok : A → Result A
  err : Error → Result A

-- What a published document says.
pub record ManifestDocument : Type 0 where
  pub valid : Bool
  pub agent_id : ℕ
  pub catalog_is_1_0_0 : Bool
  pub manifest_id : ℕ
  pub manifest_sequence : ℕ
  pub generated_at : ℕ
  pub document_digest : ℕ

pub record ManifestReceipt : Type 0 where
  pub manifest_id : ℕ
  pub manifest_digest : ℕ
  pub server_received_at : ℕ

-- What a heartbeat or a mobile presence says.
pub record Report : Type 0 where
  pub valid : Bool
  pub agent_id : ℕ
  pub boot_id : ℕ
  pub sequence : ℕ
  pub reported_at : ℕ
  pub manifest_id : ℕ
  pub manifest_digest : ℕ
  pub payload_digest : ℕ

pub record PresenceResponse : Type 0 where
  pub accepted_sequence : ℕ
  pub server_received_at : ℕ
  pub presence_expires_at : ℕ
  pub poll_after_seconds : ℕ
