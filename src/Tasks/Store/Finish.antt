-- ===== src/Tasks/Store/Finish.antt =====
-- `finish_with_result` of the store.
use wi_fi_test_orchestrator.Prelude.{
  ℕ, String, not, Option, none, some, [], ◌∷◌, ◌++◌, ◌==◌, is_some, if◌then◌else◌,
}
use wi_fi_test_orchestrator.Prelude.Table.{find, count, update}
use wi_fi_test_orchestrator.Tasks.State.{TaskState, ensure_transition}
use wi_fi_test_orchestrator.Tasks.Store.Rows.{
  Store, InboxRow, ResultRow, pending, Result, ok, err, state_conflict, invalid_transition,
  not_json, integrity, inbox_task, effect_key, attempt_of, result_of, task_in, set_state,
}

-- A result or a progress event as the methods take it: its identifier, its canonical JSON and the
-- digest of that.
pub record Payload : Type 0 where
  pub id : ℕ
  pub encoded : String
  pub payload_digest : ℕ

abbrev pub result_row : ℕ → ℕ → ℕ → Payload → ResultRow
result_row now result_key task_id payload = record {
  result_id = payload.id;
  task_id = task_id;
  idempotency_key = result_key;
  payload = payload.encoded;
  payload_hash = payload.payload_digest;
  state = pending;
  next_attempt_at = now;
  confirmed_at = none;
}

-- The statements behind the compare-and-set, on the row of the task.
unfoldable pub record_result :
    ℕ → ℕ → ℕ → TaskState → Payload → Option InboxRow → Store → Store → Result (Unit {0}) × Store
record_result now result_key task_id target payload none before s = (err integrity, before)
record_result now result_key task_id target payload (some row) before s =
    if is_some (find (result_of task_id) s.results) then (err integrity, before) else (
      ok tt,
      record s {
        results = s.results ++ result_row now result_key task_id payload ∷ [];
        effects =
            update (effect_key row.idempotency_key)
              (λ e. record e {
                terminal_state = some target;
                result_id = some payload.id;
                updated_at = now;
              })
              s.effects;
        attempts =
            update (attempt_of task_id) (λ a. record a { finished_at = some now }) s.attempts;
      },
    )

-- From the canonical JSON of the payload on, which is `none` where `canonical_json` raises.
unfoldable pub store_result :
    ℕ → ℕ → ℕ → TaskState → TaskState → Option Payload → Store → Result (Unit {0}) × Store
unfolding record_result
store_result now result_key task_id current target none s = (err not_json, s)
store_result now result_key task_id current target (some payload) s =
    if not (count (task_in task_id current) s.inbox == 1)
    then (err state_conflict, s)
    else let s' = record s {
      inbox = update (task_in task_id current) (set_state now target) s.inbox;
    } in
      record_result now result_key task_id target payload (find (inbox_task task_id) s'.inbox) s s'

unfoldable pub finish_with_result :
    ℕ → ℕ → ℕ → TaskState → TaskState → Option Payload → Store → Result (Unit {0}) × Store
unfolding store_result
finish_with_result now result_key task_id current target payload s =
    if not (ensure_transition current target)
    then (err invalid_transition, s)
    else store_result now result_key task_id current target payload s
