-- ===== src/Tasks/Tests/Data.antt =====
-- A task and the tables that it stands in.
use wi_fi_test_orchestrator.Prelude.{String, none, [], ◌∷◌}
use wi_fi_test_orchestrator.Tasks.State.{TaskState, queued}
use wi_fi_test_orchestrator.Tasks.Envelope.{LocalTaskEnvelope}
use wi_fi_test_orchestrator.Tasks.Store.Rows.{Store, InboxRow, empty}
use wi_fi_test_orchestrator.Tasks.Store.Ingest.{inbox_row, effect_row}
use wi_fi_test_orchestrator.Tasks.Tests.Text.{text_codec}

abbrev pub ping : LocalTaskEnvelope String
ping = record {
  task_id = 1;
  execution_id = 2;
  task_type = "ping";
  task_type_version = "1.0.0";
  issued_at = 1;
  not_before = 1;
  expires_at = 9;
  idempotency_key = 3;
  required_capabilities = "icmp" ∷ [];
  foreground_requirement = "none";
  user_interaction_requirement = "none";
  parameters = "a";
}

-- The same effect under another identifier.
abbrev pub ping_again : LocalTaskEnvelope String
ping_again = record ping { task_id = 4 }

abbrev pub queued_row : InboxRow
queued_row = record (inbox_row text_codec 5 ping none queued none) { received_at = 5 }

abbrev pub queued_ping : Store
queued_ping = record empty { inbox = queued_row ∷ []; effects = effect_row text_codec 5 ping ∷ [] }

-- The row of the task in another state.
abbrev pub ping_in : TaskState → Store
ping_in state = record queued_ping { inbox = record queued_row { state = state } ∷ [] }
