-- ===== src/Tasks/Store/Recover.antt =====
-- `recover_interrupted` of the store.
use wi_fi_test_orchestrator.Prelude.{ℕ, Bool, ◌||◌, some, List, [], ◌∷◌, coalesce, length}
use wi_fi_test_orchestrator.Prelude.Table.{select, update}
use wi_fi_test_orchestrator.Tasks.State.{
  preparing, running, cancel_requested, cleaning_up, interrupted, is_state,
}
use wi_fi_test_orchestrator.Tasks.Store.Rows.{
  Store, InboxRow, process_restart, inbox_task, attempt_of,
}

-- The states that a restart interrupts.
abbrev pub in_progress : InboxRow → Bool
in_progress row =
    is_state row.state preparing
    || is_state row.state running
    || is_state row.state cancel_requested
    || is_state row.state cleaning_up

abbrev pub interrupt : ℕ → InboxRow → InboxRow
interrupt now row = record row {
  state = interrupted;
  reason = some process_restart;
  updated_at = now;
}

unfoldable pub recover_rows : ℕ → List InboxRow → Store → Store
recover_rows now [] s = s
recover_rows now (row ∷ rows) s = recover_rows now rows (record s {
  inbox = update (inbox_task row.task_id) (interrupt now) s.inbox;
  attempts =
      update (attempt_of row.task_id)
        (λ a. record a {
          cleanup_requested_at = some (coalesce a.cleanup_requested_at now);
          finished_at = some (coalesce a.finished_at now);
        })
        s.attempts;
})

unfoldable pub recover_interrupted : ℕ → Store → ℕ × Store
unfolding recover_rows
recover_interrupted now s =
    let rows = select in_progress s.inbox in (length rows, recover_rows now rows s)
