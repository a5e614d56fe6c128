-- ===== src/Tasks/Runner/Types.antt =====
-- The plugins, the documents and the surroundings of a run.
use wi_fi_test_orchestrator.Prelude.{ℕ, String, Bool, Option, List}
use wi_fi_test_orchestrator.Tasks.State.{TaskState}
use wi_fi_test_orchestrator.Tasks.Envelope.{LocalTaskEnvelope}

pub data Status : Type 0 where
  status_completed status_failed : Status

pub data Outcome : Type 0 where
  pass fail inconclusive not_evaluated : Outcome

pub record PluginResult (Json : Type 0) : Type 0 where
  pub status : Status
  pub outcome : Outcome
  pub metrics : List Json

-- How `await asyncio.wait_for(plugin.execute(...))` ends: with a result, a `TimeoutError`, a
-- `CancelledError` or another exception.
pub data Ending (Json : Type 0) : Type 0 where
  returned : PluginResult Json → Ending Json
  timed_out was_cancelled raised : Ending Json

-- What happens while a plugin executes: it awaits `progress(percent)`, and learns whether that
-- returned; `cancel(task_id)` of the runner is called; it ends.
pub data Execution (Json : Type 0) : Type 0 where
  reports : ℕ → (Bool → Execution Json) → Execution Json
  cancel_arrives : Execution Json → Execution Json
  ends : Ending Json → Execution Json

-- How `await asyncio.wait_for(plugin.cleanup(task), 10)` ends: a `CancelledError` is not an
-- `Exception`.
pub data Cleanup : Type 0 where
  cleaned cleanup_raised cleanup_cancelled : Cleanup

pub record Plugin (Json : Type 0) : Type 0 where
  pub accepts : Json → Bool
  pub execute : LocalTaskEnvelope Json → Execution Json
  pub cleanup : LocalTaskEnvelope Json → Cleanup
  pub provider_id : String
  pub provider_version : String
  pub method : String

pub data Detail : Type 0 where
  timeout detail_cancelled plugin_failed cleanup_failed : Detail

-- The document of `progress`.
pub record ProgressEvent : Type 0 where
  pub event_id : ℕ
  pub task_id : ℕ
  pub execution_id : ℕ
  pub sequence : ℕ
  pub occurred_at : ℕ
  pub progress_percent : ℕ
  pub idempotency_key : ℕ

-- The document of the result.
pub record ResultDocument (Json : Type 0) : Type 0 where
  pub result_id : ℕ
  pub task_id : ℕ
  pub execution_id : ℕ
  pub local_state : TaskState
  pub outcome : Outcome
  pub provider_id : String
  pub provider_version : String
  pub method : String
  pub metrics : List Json
  pub reason : Option Detail
  pub finished_at : ℕ

-- The readings of the clock, in the order of the calls, those of the progress events by their
-- sequence, the fresh UUIDs, and the canonical JSON of the documents, `none` where
-- `canonical_json` raises, as it does at a metric that is NaN.
pub record Env (Json : Type 0) : Type 0 where
  pub now : ℕ → ℕ
  pub event_now : ℕ → ℕ
  pub stored_now : ℕ → ℕ
  pub event_id : ℕ → ℕ
  pub event_key : ℕ → ℕ
  pub attempt_id : ℕ
  pub result_id : ℕ
  pub result_key : ℕ
  pub encode_event : ProgressEvent → Option String
  pub encode_result : ResultDocument Json → Option String

-- What the run knows of its task after the execution: `result`, `final_state` and `detail`.
pub record Settled (Json : Type 0) : Type 0 where
  pub result : Option (PluginResult Json)
  pub final_state : TaskState
  pub detail : Option Detail
