-- ===== src/Tasks/Store/Outbox.antt =====
-- `queue_progress` and `confirm_outbox` of the store.
use wi_fi_test_orchestrator.Prelude.{
  ℕ, Bool, ◌&&◌, ◌||◌, Option, none, some, [], ◌∷◌, ◌++◌, ◌==◌, is_none, is_some, if◌then◌else◌,
}
use wi_fi_test_orchestrator.Prelude.Table.{find, update}
use wi_fi_test_orchestrator.Tasks.Store.Rows.{
  Store, ProgressRow, pending, confirmed, Result, ok, err, not_json, integrity, inbox_task,
}
use wi_fi_test_orchestrator.Tasks.Store.Finish.{Payload}

abbrev event_of : ℕ → ℕ → ProgressRow → Bool
event_of task_id sequence row = row.task_id == task_id && row.sequence == sequence

-- The canonical JSON is `none` where `canonical_json` raises.
unfoldable pub queue_progress : ℕ → ℕ → ℕ → Option Payload → Store → Result (Unit {0}) × Store
queue_progress now task_id sequence none s = (err not_json, s)
queue_progress now task_id sequence (some payload) s =
    if is_none (find (inbox_task task_id) s.inbox)
      || is_some (find (event_of task_id sequence) s.progress)
    then (err integrity, s)
    else (
      ok tt,
      record s {
        progress =
            s.progress
            ++ record {
              event_id = payload.id;
              task_id = task_id;
              sequence = sequence;
              payload = payload.encoded;
              payload_hash = payload.payload_digest;
              state = pending;
              next_attempt_at = now;
              confirmed_at = none;
            }
              ∷ [];
      },
    )

-- `confirm_outbox("outbox_progress", "event_id", key)`
unfoldable pub confirm_progress : ℕ → ℕ → Store → Store
confirm_progress now key s = record s {
  progress =
      update (λ row. row.event_id == key)
        (λ row. record row { state = confirmed; confirmed_at = some now }) s.progress;
}

-- `confirm_outbox("outbox_results", "result_id", key)`
unfoldable pub confirm_result : ℕ → ℕ → Store → Store
confirm_result now key s = record s {
  results =
      update (λ row. row.result_id == key)
        (λ row. record row { state = confirmed; confirmed_at = some now }) s.results;
}
