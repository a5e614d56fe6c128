-- ===== src/Tasks/Store/Ops.antt =====
-- Runs of the store: any sequence of calls of its methods, with any arguments.
use wi_fi_test_orchestrator.Prelude.{ℕ, String, Option, List, [], ◌∷◌}
use wi_fi_test_orchestrator.Tasks.State.{TaskState}
use wi_fi_test_orchestrator.Tasks.Envelope.{LocalTaskEnvelope, Codec}
use wi_fi_test_orchestrator.Tasks.Store.Rows.{Store}
use wi_fi_test_orchestrator.Tasks.Store.Ingest.{ingest_task}
use wi_fi_test_orchestrator.Tasks.Store.Queue.{queued_tasks}
use wi_fi_test_orchestrator.Tasks.Store.Claim.{
  claim_task, transition, mark_invoked, request_cleanup, complete_cleanup,
}
use wi_fi_test_orchestrator.Tasks.Store.Finish.{Payload, finish_with_result}
use wi_fi_test_orchestrator.Tasks.Store.Outbox.{queue_progress, confirm_progress, confirm_result}
use wi_fi_test_orchestrator.Tasks.Store.Recover.{recover_interrupted}

-- A call of a method, at a time.
pub data Op (Json : Type 0) : Type 0 where
  ingest : ℕ → ℕ → LocalTaskEnvelope Json → Op Json
  read_queue : ℕ → (ℕ → ℕ) → ℕ → Op Json
  claim : ℕ → ℕ → ℕ → Op Json
  move : ℕ → ℕ → TaskState → TaskState → Op Json
  invoke : ℕ → ℕ → Op Json
  ask_cleanup : ℕ → ℕ → Op Json
  end_cleanup : ℕ → ℕ → Option String → Op Json
  finish : ℕ → ℕ → ℕ → TaskState → TaskState → Option Payload → Op Json
  report : ℕ → ℕ → ℕ → Option Payload → Op Json
  confirm_event : ℕ → ℕ → Op Json
  confirm_outcome : ℕ → ℕ → Op Json
  recover : ℕ → Op Json

module _ {Json : Type 0} (c : Codec Json) where
  -- The tables after a call, whether it returned or raised.
  unfoldable pub apply : Op Json → Store → Store
  apply (ingest now q task) s = (ingest_task c now q task s).1
  apply (read_queue now fresh limit) s = (queued_tasks c now fresh limit s).1
  apply (claim now attempt_id task_id) s = (claim_task now attempt_id task_id s).1
  apply (move now task_id current target) s = (transition now task_id current target s).1
  apply (invoke now task_id) s = (mark_invoked now task_id s).1
  apply (ask_cleanup now task_id) s = request_cleanup now task_id s
  apply (end_cleanup now task_id error) s = complete_cleanup now task_id error s
  apply (finish now key task_id current target payload) s =
      (finish_with_result now key task_id current target payload s).1
  apply (report now task_id sequence payload) s = (queue_progress now task_id sequence payload s).1
  apply (confirm_event now key) s = confirm_progress now key s
  apply (confirm_outcome now key) s = confirm_result now key s
  apply (recover now) s = (recover_interrupted now s).1

  unfoldable pub run : List (Op Json) → Store → Store
  unfolding apply
  run [] s = s
  run (op ∷ ops) s = run ops (apply op s)
