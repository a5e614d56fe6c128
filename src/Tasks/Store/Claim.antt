-- ===== src/Tasks/Store/Claim.antt =====
-- The methods of the store that claim a task, move it and record its attempt: `claim_task`,
-- `transition`, `mark_invoked`, `request_cleanup` and `complete_cleanup`.
use wi_fi_test_orchestrator.Prelude.{
  ℕ, ◌+◌, String, Bool, not, ◌&&◌, Option, none, some, [], ◌∷◌, ◌++◌, ◌==◌, is_none, is_some,
  coalesce, if◌then◌else◌,
}
use wi_fi_test_orchestrator.Prelude.Table.{find, count, update}
use wi_fi_test_orchestrator.Tasks.State.{TaskState, queued, preparing, is_state, ensure_transition}
use wi_fi_test_orchestrator.Tasks.Store.Rows.{
  Store, InboxRow, EffectRow, AttemptRow, Result, ok, err, state_conflict, invalid_transition,
  integrity, inbox_task, attempt_of, task_in, set_state,
}

abbrev pub attempt_row : ℕ → ℕ → ℕ → AttemptRow
attempt_row now attempt_id task_id = record {
  attempt_id = attempt_id;
  task_id = task_id;
  claimed_at = now;
  invoked_at = none;
  finished_at = none;
  cleanup_requested_at = none;
  cleanup_completed_at = none;
  cleanup_attempts = 0;
  last_cleanup_error = none;
}

abbrev pub unclaimed : ℕ → EffectRow → Bool
unclaimed key row = row.idempotency_key == key && is_none row.claimed_at

unfoldable pub claim_row : ℕ → ℕ → ℕ → Option InboxRow → Store → Result (Option ℕ) × Store
claim_row now attempt_id task_id none s = (ok none, s)
claim_row now attempt_id task_id (some row) s =
    if not (is_state row.state queued)
    then (ok none, s)
    else if not (count (unclaimed row.idempotency_key) s.effects == 1)
    then (ok none, s)
    else if is_some (find (attempt_of task_id) s.attempts)
    then (err integrity, s)
    else (
      ok (some attempt_id),
      record s {
        effects =
            update (unclaimed row.idempotency_key)
              (λ e. record e { claimed_at = some now; updated_at = now }) s.effects;
        inbox = update (task_in task_id queued) (set_state now preparing) s.inbox;
        attempts = s.attempts ++ attempt_row now attempt_id task_id ∷ [];
      },
    )

unfoldable pub claim_task : ℕ → ℕ → ℕ → Store → Result (Option ℕ) × Store
unfolding claim_row
claim_task now attempt_id task_id s =
    claim_row now attempt_id task_id (find (inbox_task task_id) s.inbox) s

-- Outside a transaction: an update of another number of rows than one would stay.
unfoldable pub transition : ℕ → ℕ → TaskState → TaskState → Store → Result (Unit {0}) × Store
transition now task_id current target s =
    if not (ensure_transition current target)
    then (err invalid_transition, s)
    else let s' = record s {
      inbox = update (task_in task_id current) (set_state now target) s.inbox;
    } in
      (if count (task_in task_id current) s.inbox == 1 then ok tt else err state_conflict, s')

abbrev pub not_invoked : ℕ → AttemptRow → Bool
not_invoked task_id row = row.task_id == task_id && is_none row.invoked_at

unfoldable pub mark_invoked : ℕ → ℕ → Store → Result (Unit {0}) × Store
mark_invoked now task_id s =
    if count (not_invoked task_id) s.attempts == 1
    then (
      ok tt,
      record s {
        attempts =
            update (not_invoked task_id) (λ row. record row { invoked_at = some now }) s.attempts;
      },
    )
    else (err state_conflict, s)

unfoldable pub request_cleanup : ℕ → ℕ → Store → Store
request_cleanup now task_id s = record s {
  attempts =
      update (attempt_of task_id)
        (λ row. record row { cleanup_requested_at = some (coalesce row.cleanup_requested_at now) })
        s.attempts;
}

unfoldable pub complete_cleanup : ℕ → ℕ → Option String → Store → Store
complete_cleanup now task_id error s = record s {
  attempts =
      update (attempt_of task_id)
        (λ row. record row {
          cleanup_attempts = row.cleanup_attempts + 1;
          cleanup_completed_at = if is_none error then some now else row.cleanup_completed_at;
          last_cleanup_error = error;
        })
        s.attempts;
}
