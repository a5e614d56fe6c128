-- ===== src/Backend/Presence.antt =====
-- `AgentProtocolService` of backend/src/wto_backend/services/agent_protocol.py: manifests,
-- heartbeats and mobile presence. Identifiers and digests are naturals, times are microseconds.
-- Whether a document satisfies its schema is an argument, and so is the digest of its canonical
-- JSON. A method that raises commits nothing, but for the audit entries that are written out.
mod Tables
pub mod Sequence
mod Tests
pub use Tables.{
  Kind, Agent, CapabilityManifest, AgentPresence, Db, Error, Result, ManifestDocument,
  ManifestReceipt, Report, PresenceResponse, desktop, mobile, contract_invalid,
  agent_authentication, protocol_version, clock_skew, conflict, sequence_conflict, integrity, ok,
  err,
}
use wi_fi_test_orchestrator.Prelude.{
  ℕ, ◌+◌, ◌-◌, ◌*◌, Bool, true, false, not, ◌&&◌, ◌||◌, Option, none, some, List, [], ◌∷◌, ◌++◌,
  ◌==◌, ltb, is_none, is_some, if◌then◌else◌,
}
use wi_fi_test_orchestrator.Prelude.Table.{find, update}

abbrev pub seconds : ℕ → ℕ
seconds n = n * 1000000

abbrev pub presence_of : ℕ → AgentPresence → Bool
presence_of agent_id row = row.agent_id == agent_id

abbrev pub agent_is : ℕ → Agent → Bool
agent_is agent_id row = row.id == agent_id

abbrev pub manifest_at : ℕ → ℕ → CapabilityManifest → Bool
manifest_at agent_id sequence row = row.agent_id == agent_id && row.manifest_sequence == sequence

abbrev manifest_is : ℕ → ℕ → CapabilityManifest → Bool
manifest_is agent_id manifest_id row = row.agent_id == agent_id && row.id == manifest_id

abbrev pub receipt_of : CapabilityManifest → ManifestReceipt
receipt_of row = record {
  manifest_id = row.id;
  manifest_digest = row.document_digest;
  server_received_at = row.server_received_at;
}

abbrev pub new_manifest : ℕ → ℕ → ManifestDocument → CapabilityManifest
new_manifest now agent_id document = record {
  id = document.manifest_id;
  agent_id = agent_id;
  manifest_sequence = document.manifest_sequence;
  generated_at = document.generated_at;
  server_received_at = now;
  document_digest = document.document_digest;
}

publish_at : ℕ → ℕ → ManifestDocument → Option CapabilityManifest → Db → Result ManifestReceipt × Db
publish_at now agent_id document (some existing) db =
    if not (existing.document_digest == document.document_digest)
      || not (existing.id == document.manifest_id)
    then (err sequence_conflict, db)
    else (ok (receipt_of existing), db)
publish_at now agent_id document none db =
    if is_some (find (λ (row : CapabilityManifest). row.id == document.manifest_id) db.manifests)
    then (err integrity, db)
    else (
      ok (receipt_of (new_manifest now agent_id document)),
      record db { manifests = db.manifests ++ new_manifest now agent_id document ∷ [] },
    )

-- `_audit_incompatibility`
abbrev audit_incompatibility : ℕ → Db → Db
audit_incompatibility agent_id db = record db { incompatible = db.incompatible ++ agent_id ∷ [] }

unfoldable pub publish_manifest : ℕ → ℕ → ManifestDocument → Db → Result ManifestReceipt × Db
unfolding publish_at
publish_manifest now agent_id document db =
    if not document.valid
    then (err contract_invalid, audit_incompatibility agent_id db)
    else if not (document.agent_id == agent_id)
    then (err agent_authentication, db)
    else if not document.catalog_is_1_0_0
    then (err protocol_version, audit_incompatibility agent_id db)
    else publish_at now agent_id document
        (find (manifest_at agent_id document.manifest_sequence) db.manifests) db

-- `abs(now - reported)`
abbrev pub distance : ℕ → ℕ → ℕ
distance a b = (a - b) + (b - a)

digest_differs : Option CapabilityManifest → ℕ → Bool
digest_differs none digest = true
digest_differs (some manifest) digest = not (manifest.document_digest == digest)

-- An agent that may not report: unknown, revoked or not active.
unfoldable pub barred : Option Agent → Bool
barred none = true
barred (some agent) = is_some agent.revoked_at || not agent.is_active

abbrev pub reported_row : ℕ → Kind → ℕ → ℕ → Report → AgentPresence
reported_row now kind ttl agent_id report = record {
  agent_id = agent_id;
  kind = kind;
  boot_id = report.boot_id;
  sequence = report.sequence;
  payload_digest = report.payload_digest;
  agent_reported_at = report.reported_at;
  server_received_at = now;
  presence_expires_at = now + seconds ttl;
  manifest_id = report.manifest_id;
}

store_row : ℕ → AgentPresence → Option AgentPresence → List AgentPresence → List AgentPresence
store_row agent_id row none presences = presences ++ row ∷ []
store_row agent_id row (some presence) presences =
    update (presence_of agent_id) (λ x. row) presences

abbrev pub response_of : ℕ → AgentPresence → PresenceResponse
response_of poll_after row = record {
  accepted_sequence = row.sequence;
  server_received_at = row.server_received_at;
  presence_expires_at = row.presence_expires_at;
  poll_after_seconds = poll_after;
}

-- From `expires = ...` on.
record_presence :
    ℕ → Kind → ℕ → ℕ → ℕ → Report → Option AgentPresence → Db → Result PresenceResponse × Db
unfolding store_row barred
record_presence now kind ttl poll_after agent_id report presence db =
    if barred (find (agent_is agent_id) db.agents) then (err agent_authentication, db) else (
      ok (response_of poll_after (reported_row now kind ttl agent_id report)),
      record db {
        presences =
            store_row agent_id (reported_row now kind ttl agent_id report) presence db.presences;
        agents = update (agent_is agent_id) (λ a. record a { last_seen_at = some now }) db.agents;
      },
    )

-- The comparison with the presence that the agent has.
compare_presence :
    ℕ → Kind → ℕ → ℕ → ℕ → Report → Option AgentPresence → Db → Result PresenceResponse × Db
unfolding record_presence
compare_presence now kind ttl poll_after agent_id report none db =
    record_presence now kind ttl poll_after agent_id report none db
compare_presence now kind ttl poll_after agent_id report (some presence) db =
    if presence.boot_id == report.boot_id && ltb report.sequence presence.sequence
    then (err sequence_conflict, db)
    else if presence.boot_id == report.boot_id && report.sequence == presence.sequence
    then if not (report.payload_digest == presence.payload_digest)
      then (err sequence_conflict, db)
      else (ok (response_of poll_after presence), db)
    else record_presence now kind ttl poll_after agent_id report (some presence) db

-- `_presence`, with `agent_clock_skew_seconds` of the settings first.
unfoldable pub presence : ℕ → ℕ → Kind → ℕ → ℕ → ℕ → Report → Db → Result PresenceResponse × Db
unfolding digest_differs compare_presence
presence skew now kind ttl poll_after agent_id report db =
    if not (report.agent_id == agent_id)
    then (err agent_authentication, db)
    else if ltb (seconds skew) (distance now report.reported_at)
    then (err clock_skew, db)
    else if digest_differs (find (manifest_is agent_id report.manifest_id) db.manifests)
        report.manifest_digest
    then (err conflict, db)
    else compare_presence now kind ttl poll_after agent_id report
        (find (presence_of agent_id) db.presences) db

unfoldable pub heartbeat : ℕ → ℕ → ℕ → Report → Db → Result PresenceResponse × Db
unfolding presence
heartbeat skew now agent_id report db =
    if not report.valid
    then (err contract_invalid, db)
    else presence skew now desktop 90 30 agent_id report db

unfoldable pub mobile_presence : ℕ → ℕ → ℕ → Report → Db → Result PresenceResponse × Db
unfolding presence
mobile_presence skew now agent_id report db =
    if not report.valid
    then (err contract_invalid, db)
    else presence skew now mobile 120 60 agent_id report db
