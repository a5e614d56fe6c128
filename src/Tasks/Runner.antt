-- ===== src/Tasks/Runner.antt =====
-- `TaskRunner` of agents/desktop/src/wto_desktop_agent/application/task_runner.py. A plugin is what
-- its execution does, call by call, and how it ends; the registry of the plugins is a parameter.
-- The readings of the clock and the fresh UUIDs of a run are functions and numbers of `Env`.
mod Effects
mod Types
pub mod Phases
pub mod Windup
pub mod Executes
pub mod Completes
pub use Types.{
  Status, Outcome, PluginResult, Ending, Execution, Cleanup, Plugin, Detail, ProgressEvent,
  ResultDocument, Env, Settled, status_completed, status_failed, pass, fail, inconclusive,
  not_evaluated, returned, timed_out, was_cancelled, raised, reports, cancel_arrives, ends, cleaned,
  cleanup_raised, cleanup_cancelled, timeout, detail_cancelled, plugin_failed, cleanup_failed,
}
pub use Effects.{State, Token, Failure, of_store, cancelled_in_cleanup, Run, done, failed_with}
pub use Effects.{Call, lift, modify, gets, pure, raise, ◌>>=◌, ◌>>◌}
use wi_fi_test_orchestrator.Prelude.{
  ℕ, suc, String, Bool, true, false, Option, none, some, List, [], ◌∷◌, ◌==◌, leb, if◌then◌else◌,
}
use mathlib.Core.Option
use wi_fi_test_orchestrator.Prelude.Table.{find, update, delete}
use wi_fi_test_orchestrator.Tasks.State.{
  TaskState, skipped, blocked, rejected, queued, preparing, running, cancel_requested, cleaning_up,
  completed, failed, cancelled, interrupted,
}
use wi_fi_test_orchestrator.Tasks.Envelope.{LocalTaskEnvelope, Codec}
use wi_fi_test_orchestrator.Tasks.Store.Rows.{Store, Result, ok, err}
use wi_fi_test_orchestrator.Tasks.Store.Claim.{
  claim_task, transition, mark_invoked, request_cleanup, complete_cleanup,
}
use wi_fi_test_orchestrator.Tasks.Store.Finish.{Payload, finish_with_result}
use wi_fi_test_orchestrator.Tasks.Store.Outbox.{queue_progress}

abbrev pub token_of : ℕ → Token → Bool
token_of task_id token = token.task_id == task_id

abbrev token_flag : Option Token → Bool
token_flag none = false
token_flag (some token) = token.cancelled

-- `token.cancelled`: the dictionary holds the token of the run.
unfoldable pub token_cancelled : ℕ → State → Bool
token_cancelled task_id s = token_flag (find (token_of task_id) s.cancellations)

-- `cancel`, and `token.cancel()` in a run.
unfoldable pub cancel : ℕ → State → State
cancel task_id s = record s {
  cancellations = update (token_of task_id) (λ t. record t { cancelled = true }) s.cancellations;
}

-- `self._cancellations[task_id] = CancellationToken()`
unfoldable pub start_token : ℕ → State → State
start_token task_id s = record s {
  cancellations =
      record { task_id = task_id; cancelled = false } ∷ delete (token_of task_id) s.cancellations;
}

-- `self._cancellations.pop(task_id, None)`
unfoldable pub pop_token : ℕ → State → State
pop_token task_id s = record s { cancellations = delete (token_of task_id) s.cancellations }

module _ {Json : Type 0} (c : Codec Json) (env : Env Json) where
  event : LocalTaskEnvelope Json → ℕ → ℕ → ProgressEvent
  event task sequence percent = record {
    event_id = env.event_id sequence;
    task_id = task.task_id;
    execution_id = task.execution_id;
    sequence = sequence;
    occurred_at = env.event_now sequence;
    progress_percent = percent;
    idempotency_key = env.event_key sequence;
  }

  event_encoded : ProgressEvent → String → Payload
  event_encoded e encoded = record {
    id = e.event_id;
    encoded = encoded;
    payload_digest = c.sha256 encoded;
  }

  event_payload : ProgressEvent → Option Payload
  unfolding event_encoded
  event_payload e = Option.map (event_encoded e) (env.encode_event e)

  returns : Result (Unit {0}) → Bool
  returns (ok tt) = true
  returns (err e) = false

  -- `progress(percent)`, where `sequence` is already the next one.
  report : LocalTaskEnvelope Json → ℕ → ℕ → Store → Result (Unit {0}) × Store
  unfolding event event_payload
  report task sequence percent =
      queue_progress (env.stored_now sequence) task.task_id sequence
        (event_payload (event task sequence percent))

  -- The execution of the plugin, from the sequence that it has reached.
  unfoldable pub perform : LocalTaskEnvelope Json → ℕ → Execution Json → State → Ending Json × State
  unfolding report returns cancel
  perform task sequence (ends ending) s = (ending, s)
  perform task sequence (cancel_arrives rest) s = perform task sequence rest (cancel task.task_id s)
  perform task sequence (reports percent next) s =
      let (r, store') = report task (suc sequence) percent s.store in
      perform task (suc sequence) (next (returns r)) (record s { store = store' })

  abbrev final_of : Status → TaskState
  final_of status_completed = completed
  final_of status_failed = failed

  -- `token.cancel()` and the transition, in the branches of the two timeouts and cancellations.
  unfoldable pub request_cancel : ℕ → Call (Unit {0})
  request_cancel task_id = do
    modify (cancel task_id)
    lift (transition (env.now 4) task_id running cancel_requested)

  -- The clauses of the `try` around the execution.
  unfoldable pub settle : ℕ → Ending Json → Call (Settled Json)
  unfolding request_cancel
  settle task_id (returned r) =
      pure (record { result = some r; final_state = final_of r.status; detail = none })
  settle task_id timed_out = do
    request_cancel task_id
    pure (record { result = none; final_state = failed; detail = some timeout })
  settle task_id was_cancelled = do
    request_cancel task_id
    pure (record { result = none; final_state = cancelled; detail = some detail_cancelled })
  settle task_id raised =
      pure (record { result = none; final_state = failed; detail = some plugin_failed })

  -- The `try` around the cleanup.
  unfoldable pub clean_up : ℕ → Cleanup → Settled Json → Call (Settled Json)
  clean_up task_id cleaned settled = do
    lift (λ s. (ok tt, complete_cleanup (env.now 7) task_id none s))
    pure settled
  clean_up task_id cleanup_raised settled = do
    lift (λ s. (ok tt, complete_cleanup (env.now 7) task_id (some "cleanup_failed") s))
    pure (record settled { final_state = failed; detail = some cleanup_failed })
  clean_up task_id cleanup_cancelled settled = raise cancelled_in_cleanup

  outcome_of : Option (PluginResult Json) → Outcome
  outcome_of none = not_evaluated
  outcome_of (some r) = r.outcome

  metrics_of : Option (PluginResult Json) → List Json
  metrics_of none = []
  metrics_of (some r) = r.metrics

  unfoldable pub document :
      LocalTaskEnvelope Json → Plugin Json → Settled Json → ResultDocument Json
  unfolding outcome_of metrics_of
  document task plugin settled = record {
    result_id = env.result_id;
    task_id = task.task_id;
    execution_id = task.execution_id;
    local_state = settled.final_state;
    outcome = outcome_of settled.result;
    provider_id = plugin.provider_id;
    provider_version = plugin.provider_version;
    method = plugin.method;
    metrics = metrics_of settled.result;
    reason = settled.detail;
    finished_at = env.now 8;
  }

  unfoldable pub payload_of : ResultDocument Json → String → Payload
  payload_of d encoded = record {
    id = d.result_id;
    encoded = encoded;
    payload_digest = c.sha256 encoded;
  }

  unfoldable pub result_payload : ResultDocument Json → Option Payload
  unfolding payload_of
  result_payload d = Option.map (payload_of d) (env.encode_result d)

  -- From the result document to the end of `run`.
  unfoldable pub conclude : LocalTaskEnvelope Json → Plugin Json → Settled Json → Call TaskState
  unfolding document result_payload
  conclude task plugin settled = do
    lift (
        finish_with_result (env.now 9) env.result_key task.task_id cleaning_up settled.final_state
          (result_payload (document task plugin settled)))
    modify (pop_token task.task_id)
    pure settled.final_state

  -- From the line `current = ...` on.
  unfoldable pub wind_down : LocalTaskEnvelope Json → Plugin Json → Settled Json → Call TaskState
  unfolding clean_up conclude token_cancelled
  wind_down task plugin settled = do
    is_cancelled ← gets (token_cancelled task.task_id)
    lift (
        transition (env.now 5) task.task_id (if is_cancelled then cancel_requested else running)
          cleaning_up)
    lift (λ s. (ok tt, request_cleanup (env.now 6) task.task_id s))
    closed ← clean_up task.task_id (plugin.cleanup task) settled
    conclude task plugin closed

  -- From the claim on.
  unfoldable pub run_claimed : LocalTaskEnvelope Json → Plugin Json → Option ℕ → Call TaskState
  unfolding perform settle wind_down start_token
  run_claimed task plugin none = pure interrupted
  run_claimed task plugin (some attempt_id) = do
    lift (transition (env.now 2) task.task_id preparing running)
    modify (start_token task.task_id)
    lift (mark_invoked (env.now 3) task.task_id)
    ending ← (λ s. let (e, s') = perform task 0 (plugin.execute task) s in (done e, s'))
    settled ← settle task.task_id ending
    wind_down task plugin settled

  -- A transition that ends the run before the claim.
  unfoldable pub refuse : ℕ → TaskState → Call TaskState
  refuse task_id target = do lift (transition (env.now 1) task_id queued target); pure target

  unfoldable pub run_with : LocalTaskEnvelope Json → Option (Plugin Json) → Call TaskState
  unfolding refuse run_claimed
  run_with task none = refuse task.task_id blocked
  run_with task (some plugin) =
      if plugin.accepts task.parameters
      then (do
        attempt ← lift (claim_task (env.now 1) env.attempt_id task.task_id)
        run_claimed task plugin attempt)
      else refuse task.task_id rejected

  -- `run`, over the registry of the plugins.
  unfoldable pub run :
      (String → String → Option (Plugin Json)) → LocalTaskEnvelope Json → Call TaskState
  unfolding refuse run_with
  run registry task =
      if leb task.expires_at (env.now 0)
      then refuse task.task_id skipped
      else run_with task (registry task.task_type task.task_type_version)
