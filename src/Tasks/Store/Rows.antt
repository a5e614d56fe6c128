-- ===== src/Tasks/Store/Rows.antt =====
-- The rows of the tables inbox_tasks, idempotency_effects, task_attempts, outbox_progress,
-- outbox_results and quarantine, but for the columns that keep their default: attempt_number, and
-- attempts and last_error of the outboxes.
use wi_fi_test_orchestrator.Prelude.{ℕ, String, Bool, ◌&&◌, Option, List, [], ◌==◌}
use wi_fi_test_orchestrator.Tasks.State.{TaskState, is_state}

-- The `detail` of the column `reason`.
pub data Reason : Type 0 where
  idempotency_duplicate idempotency_conflict corrupt_row process_restart : Reason

pub record InboxRow : Type 0 where
  pub task_id : ℕ
  pub execution_id : ℕ
  pub idempotency_key : ℕ
  pub task_type : String
  pub task_type_version : String
  pub payload : String
  pub payload_hash : ℕ
  pub effect_hash : ℕ
  pub canonical_task_id : Option ℕ
  pub state : TaskState
  pub reason : Option Reason
  pub received_at : ℕ
  pub expires_at : ℕ
  pub updated_at : ℕ

pub record EffectRow : Type 0 where
  pub idempotency_key : ℕ
  pub effect_hash : ℕ
  pub canonical_task_id : ℕ
  pub claimed_at : Option ℕ
  pub terminal_state : Option TaskState
  pub result_id : Option ℕ
  pub created_at : ℕ
  pub updated_at : ℕ

pub record AttemptRow : Type 0 where
  pub attempt_id : ℕ
  pub task_id : ℕ
  pub claimed_at : ℕ
  pub invoked_at : Option ℕ
  pub finished_at : Option ℕ
  pub cleanup_requested_at : Option ℕ
  pub cleanup_completed_at : Option ℕ
  pub cleanup_attempts : ℕ
  pub last_cleanup_error : Option String

pub data OutboxState : Type 0 where
  pending in_flight confirmed : OutboxState

pub record ProgressRow : Type 0 where
  pub event_id : ℕ
  pub task_id : ℕ
  pub sequence : ℕ
  pub payload : String
  pub payload_hash : ℕ
  pub state : OutboxState
  pub next_attempt_at : ℕ
  pub confirmed_at : Option ℕ

pub record ResultRow : Type 0 where
  pub result_id : ℕ
  pub task_id : ℕ
  pub idempotency_key : ℕ
  pub payload : String
  pub payload_hash : ℕ
  pub state : OutboxState
  pub next_attempt_at : ℕ
  pub confirmed_at : Option ℕ

pub data QuarantineReason : Type 0 where
  task_id_payload_conflict corrupt_task_row : QuarantineReason

pub record QuarantineRow : Type 0 where
  pub quarantine_id : ℕ
  pub source_key : ℕ
  pub reason : QuarantineReason
  pub raw_payload : String
  pub quarantined_at : ℕ

pub record Store : Type 0 where
  pub inbox : List InboxRow
  pub effects : List EffectRow
  pub attempts : List AttemptRow
  pub progress : List ProgressRow
  pub results : List ResultRow
  pub quarantine : List QuarantineRow

abbrev pub empty : Store
empty = record {
  inbox = [];
  effects = [];
  attempts = [];
  progress = [];
  results = [];
  quarantine = [];
}

-- `not_json` is the ValueError of `canonical_json`, which takes no NaN. `integrity` is sqlite3's IntegrityError: a UNIQUE or FOREIGN KEY constraint fails.
pub data Error : Type 0 where
  duplicate_conflict state_conflict invalid_transition not_json integrity : Error

pub data Result {ℓ} (A : Type ℓ) : Type ℓ where
  ok : A → Result A
  err : Error → Result A

-- The conditions of the WHERE clauses.
abbrev pub inbox_task : ℕ → InboxRow → Bool
inbox_task task_id row = row.task_id == task_id

abbrev pub effect_key : ℕ → EffectRow → Bool
effect_key key row = row.idempotency_key == key

abbrev pub attempt_of : ℕ → AttemptRow → Bool
attempt_of task_id row = row.task_id == task_id

abbrev pub result_of : ℕ → ResultRow → Bool
result_of task_id row = row.task_id == task_id

-- `WHERE task_id=? AND state=?`
abbrev pub task_in : ℕ → TaskState → InboxRow → Bool
task_in task_id state row = row.task_id == task_id && is_state row.state state

abbrev pub set_state : ℕ → TaskState → InboxRow → InboxRow
set_state now state row = record row { state = state; updated_at = now }
