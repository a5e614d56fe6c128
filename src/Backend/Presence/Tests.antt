-- ===== src/Backend/Presence/Tests.antt =====
-- The theorems on reports and manifests at concrete tables.
use wi_fi_test_orchestrator.Prelude.{◌≤◌, ◌≡◌, refl, true, none, [], ◌∷◌}
use wi_fi_test_orchestrator.Prelude.Table.{find}
use wi_fi_test_orchestrator.Backend.Presence.{
  desktop, Db, AgentPresence, Report, PresenceResponse, ManifestDocument, ManifestReceipt, ok,
  presence, publish_manifest,
}
use wi_fi_test_orchestrator.Backend.Presence.Sequence.{
  Recorded, presence-Recorded, presence_sequence, publish_manifest_again,
}

abbrev last_presence : AgentPresence
last_presence = record {
  agent_id = 1;
  kind = desktop;
  boot_id = 3;
  sequence = 4;
  payload_digest = 8;
  agent_reported_at = 10;
  server_received_at = 11;
  presence_expires_at = 90000011;
  manifest_id = 5;
}

abbrev one_agent : Db
one_agent = record {
  agents =
      record {
        id = 1;
        is_active = true;
        disabled_at = none;
        revoked_at = none;
        revoked_by_user_id = none;
        last_seen_at = none;
      }
      ∷ [];
  manifests =
      record {
        id = 5;
        agent_id = 1;
        manifest_sequence = 0;
        generated_at = 9;
        server_received_at = 10;
        document_digest = 7;
      }
      ∷ [];
  presences = last_presence ∷ [];
  incompatible = [];
}

abbrev next_report : Report
next_report = record {
  valid = true;
  agent_id = 1;
  boot_id = 3;
  sequence = 6;
  reported_at = 20;
  manifest_id = 5;
  manifest_digest = 7;
  payload_digest = 12;
}

abbrev accepted : PresenceResponse
accepted = record {
  accepted_sequence = 6;
  server_received_at = 21;
  presence_expires_at = 90000021;
  poll_after_seconds = 30;
}

abbrev next_manifest : ManifestDocument
next_manifest = record {
  valid = true;
  agent_id = 1;
  catalog_is_1_0_0 = true;
  manifest_id = 6;
  manifest_sequence = 1;
  generated_at = 30;
  document_digest = 13;
}

abbrev receipt : ManifestReceipt
receipt = record { manifest_id = 6; manifest_digest = 13; server_received_at = 31 }

presence-Recorded_example :
    Recorded 1 next_report (presence 300 21 desktop 90 30 1 next_report one_agent).1
unfolding presence find
presence-Recorded_example =
    presence-Recorded 300 21 desktop 90 30 1 next_report one_agent accepted refl

presence_sequence_example : 4 ≤ 6
unfolding presence find
presence_sequence_example =
    presence_sequence 300 21 desktop 90 30 1 next_report one_agent accepted last_presence refl refl
      refl

publish_manifest_again_example :
    publish_manifest 40 1 next_manifest (publish_manifest 31 1 next_manifest one_agent).1
    ≡ (ok receipt, (publish_manifest 31 1 next_manifest one_agent).1)
unfolding publish_manifest find
publish_manifest_again_example = publish_manifest_again 31 40 1 next_manifest one_agent receipt refl
