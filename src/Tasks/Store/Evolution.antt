-- ===== src/Tasks/Store/Evolution.antt =====
-- How the methods of the store change the inbox.
use wi_fi_test_orchestrator.Prelude.{
  ℕ, ◌≡◌, refl, true, false, not, ◌||◌, Option, none, some, List, [], ◌∷◌, map, arith, elem, take,
  inl, inr, ◌⊎◌, ◌∙◌, sym,
}
use wi_fi_test_orchestrator.Prelude.Table.{find, select, update}
use wi_fi_test_orchestrator.Prelude.Unique.{update-update, update_none, update_congr, elem-select}
use wi_fi_test_orchestrator.Tasks.State.{
  TaskState, queued, preparing, running, cancel_requested, cleaning_up, is_state, is_terminal,
  ensure_transition,
}
use wi_fi_test_orchestrator.Tasks.Envelope.{LocalTaskEnvelope, Codec}
use wi_fi_test_orchestrator.Tasks.Store.Rows.{
  Store, InboxRow, EffectRow, inbox_task, task_in, set_state,
}
use wi_fi_test_orchestrator.Tasks.Store.Ingest.{ingest_task, ingest_by}
use wi_fi_test_orchestrator.Tasks.Store.Queue.{
  queued_tasks, order_by_received, read_by, read_rows, decode_row,
}
use wi_fi_test_orchestrator.Tasks.Store.Claim.{
  claim_task, claim_row, transition, mark_invoked, request_cleanup, complete_cleanup,
}
use wi_fi_test_orchestrator.Tasks.Store.Finish.{
  Payload, record_result, store_result, finish_with_result,
}
use wi_fi_test_orchestrator.Tasks.Store.Outbox.{queue_progress, confirm_progress, confirm_result}
use wi_fi_test_orchestrator.Tasks.Store.Recover.{
  recover_rows, recover_interrupted, in_progress, interrupt,
}
use wi_fi_test_orchestrator.Tasks.Store.Ops.{
  Op, ingest, read_queue, claim, move, invoke, ask_cleanup, end_cleanup, finish, report,
  confirm_event, confirm_outcome, recover, apply, run,
}
use wi_fi_test_orchestrator.Tasks.Store.Evolves.{
  task_key, UniqueTasks, Evolves, both, same, add, change, Evolves-Unique, Evolves-terminal,
  Evolves-if, move-Evolves, passes, received-live, queued-live,
}

module _ {Json : Type 0} (c : Codec Json) where
  ingest_by-Evolves :
      (now q : ℕ) (task : LocalTaskEnvelope Json) (o : Option InboxRow) (e : Option EffectRow)
      (s : Store)
      → find (inbox_task task.task_id) s.inbox ≡ o
      → Evolves s.inbox (ingest_by c now q task o e s).1.inbox
  unfolding ingest_by
  ingest_by-Evolves now q task (some row) e s h = Evolves-if _ _ _ (λ b. same) (λ b. same)
  ingest_by-Evolves now q task none (some effect) s h = add _ h
  ingest_by-Evolves now q task none none s h =
      both (add _ h)
        (change _ _ (λ x. refl) (λ x. refl) (λ x p. ground (arith, received-live x.state)))

  ingest-Evolves :
      (now q : ℕ) (task : LocalTaskEnvelope Json) (s : Store)
      → Evolves s.inbox (ingest_task c now q task s).1.inbox
  unfolding ingest_task
  ingest-Evolves now q task s = ingest_by-Evolves now q task _ _ s refl

  read_by-Evolves :
      (now : ℕ) (fresh : ℕ → ℕ) (row : InboxRow) (o : Option (LocalTaskEnvelope Json))
      (acc : List (LocalTaskEnvelope Json) × Store)
      → Evolves acc.1.inbox (read_by c now fresh row o acc).1.inbox
  unfolding read_by
  read_by-Evolves now fresh row (some task) (tasks, s) = same
  read_by-Evolves now fresh row none (tasks, s) =
      change _ _ (λ x. refl) (λ x. refl) (λ x p. ground (arith, queued-live x.state))

  read_rows-Evolves :
      (now : ℕ) (fresh : ℕ → ℕ) (rows : List InboxRow) (acc : List (LocalTaskEnvelope Json) × Store)
      → Evolves acc.1.inbox (read_rows c now fresh rows acc).1.inbox
  unfolding read_rows
  read_rows-Evolves now fresh [] acc = same
  read_rows-Evolves now fresh (row ∷ rows) acc =
      both (read_by-Evolves now fresh row (decode_row c row) acc)
        (read_rows-Evolves now fresh rows _)

claim_row-inbox :
    (now a id : ℕ) (row : InboxRow) (s : Store)
    → ((claim_row now a id (some row) s).1.inbox ≡ s.inbox)
      ⊎ ((claim_row now a id (some row) s).1.inbox
          ≡ update (task_in id queued) (set_state now preparing) s.inbox)
unfolding claim_row
claim_row-inbox now a id row s = ground arith

claim_row-Evolves :
    (now a id : ℕ) (o : Option InboxRow) (s : Store)
    → Evolves s.inbox (claim_row now a id o s).1.inbox
unfolding claim_row ensure_transition
claim_row-Evolves now a id none s = same
claim_row-Evolves now a id (some row) s = elim (claim_row-inbox now a id row s) [
  | inl e ↦ rw e same
  | inr e ↦ rw e (move-Evolves now id queued preparing refl)
]

transition-Evolves :
    (now id : ℕ) (current target : TaskState) (s : Store)
    → Evolves s.inbox (transition now id current target s).1.inbox
unfolding transition
transition-Evolves now id current target s =
    Evolves-if (not (ensure_transition current target)) _ _ (λ b. same)
      λ b. move-Evolves now id current target (passes _ b)

store_result-Evolves :
    (now key id : ℕ) (current target : TaskState) (o : Option Payload) (s : Store)
    → ensure_transition current target ≡ true
    → Evolves s.inbox (store_result now key id current target o s).1.inbox
unfolding store_result record_result
store_result-Evolves now key id current target none s b = same
store_result-Evolves now key id current target (some payload) s b =
    Evolves-if _ _ _ (λ b'. same)
      λ b'. recorded (find (inbox_task id) moved.inbox) (move-Evolves now id current target b)
  where
    moved : Store
    moved = record s { inbox = update (task_in id current) (set_state now target) s.inbox }

    recorded :
        (o : Option InboxRow)
        → Evolves s.inbox moved.inbox
        → Evolves s.inbox (record_result now key id target payload o s moved).1.inbox
    recorded none m = same
    recorded (some row) m = Evolves-if _ _ _ (λ b. same) (λ b. m)

finish-Evolves :
    (now key id : ℕ) (current target : TaskState) (payload : Option Payload) (s : Store)
    → Evolves s.inbox (finish_with_result now key id current target payload s).1.inbox
unfolding finish_with_result
finish-Evolves now key id current target payload s =
    Evolves-if (not (ensure_transition current target)) _ _ (λ b. same)
      λ b. store_result-Evolves now key id current target payload s (passes _ b)

-- The loop over the rows in progress, as one update: no two of them have the same task.
recover_rows-inbox :
    (now : ℕ) (rows : List InboxRow) (s : Store)
    → (recover_rows now rows s).inbox
      ≡ update (λ x. elem x.task_id (map task_key rows)) (interrupt now) s.inbox
unfolding recover_rows
recover_rows-inbox now [] s = sym (update_none (λ x. false) (interrupt now) s.inbox (λ x. refl))
recover_rows-inbox now (row ∷ rows) s =
    recover_rows-inbox now rows _
    ∙ update-update (inbox_task row.task_id) (λ x. elem x.task_id (map task_key rows))
        (interrupt now) s.inbox (λ x. refl) (λ x. refl)

-- Recovery interrupts the tasks that are in progress, and changes no other.
pub inbox-recover_interrupted :
    (now : ℕ) (s : Store)
    → UniqueTasks s
    → (recover_interrupted now s).1.inbox ≡ update in_progress (interrupt now) s.inbox
unfolding recover_interrupted
inbox-recover_interrupted now s u =
    recover_rows-inbox now (select in_progress s.inbox) s
    ∙ update_congr _ _ (interrupt now) s.inbox (elem-select task_key in_progress s.inbox u)

in_progress-live :
    (u : TaskState)
    → (is_state u preparing
        || is_state u running
        || is_state u cancel_requested
        || is_state u cleaning_up)
      ≡ true
    → is_terminal u ≡ false
unfolding is_terminal
in_progress-live u h = ground arith

recover-Evolves :
    (now : ℕ) (s : Store) → UniqueTasks s → Evolves s.inbox (recover_interrupted now s).1.inbox
unfolding recover_interrupted
recover-Evolves now s u =
    rw (inbox-recover_interrupted now s u)
      (change _ _ (λ x. refl) (λ x. refl) (λ x p. ground (arith, in_progress-live x.state)))

module _ {Json : Type 0} (c : Codec Json) where
  apply-Evolves : (op : Op Json) (s : Store) → UniqueTasks s → Evolves s.inbox (apply c op s).inbox
  unfolding apply queued_tasks claim_task mark_invoked request_cleanup complete_cleanup
      queue_progress confirm_progress confirm_result
  apply-Evolves (ingest now q task) s u = ingest-Evolves c now q task s
  apply-Evolves (read_queue now fresh limit) s u =
      read_rows-Evolves c now fresh
        (take limit (order_by_received (select (λ row. is_state row.state queued) s.inbox))) ([], s)
  apply-Evolves (claim now a id) s u = claim_row-Evolves now a id (find (inbox_task id) s.inbox) s
  apply-Evolves (move now id current target) s u = transition-Evolves now id current target s
  apply-Evolves (invoke now id) s u = Evolves-if _ _ _ (λ b. same) (λ b. same)
  apply-Evolves (ask_cleanup now id) s u = same
  apply-Evolves (end_cleanup now id error) s u = same
  apply-Evolves (finish now key id current target payload) s u =
      finish-Evolves now key id current target payload s
  apply-Evolves (report now id sequence none) s u = same
  apply-Evolves (report now id sequence (some payload)) s u =
      Evolves-if _ _ _ (λ b. same) (λ b. same)
  apply-Evolves (confirm_event now key) s u = same
  apply-Evolves (confirm_outcome now key) s u = same
  apply-Evolves (recover now) s u = recover-Evolves now s u

  pub run-UniqueTasks :
      (ops : List (Op Json)) (s : Store) → UniqueTasks s → UniqueTasks (run c ops s)
  unfolding run
  run-UniqueTasks [] s u = u
  run-UniqueTasks (op ∷ ops) s u =
      run-UniqueTasks ops (apply c op s) (Evolves-Unique (apply-Evolves op s u) u)

  run-Evolves :
      (ops : List (Op Json)) (s : Store) → UniqueTasks s → Evolves s.inbox (run c ops s).inbox
  unfolding run
  run-Evolves [] s u = same
  run-Evolves (op ∷ ops) s u =
      both (apply-Evolves op s u)
        (run-Evolves ops (apply c op s) (Evolves-Unique (apply-Evolves op s u) u))

  -- From tables with one row for a task: the row of a task in a terminal state is the same after
  -- any calls of the store, whatever their arguments, their order and their outcome.
  pub terminal_rows_stay :
      (ops : List (Op Json)) (s : Store) (k : ℕ) (r : InboxRow)
      → UniqueTasks s
      → find (inbox_task k) s.inbox ≡ some r
      → is_terminal r.state ≡ true
      → find (inbox_task k) (run c ops s).inbox ≡ some r
  terminal_rows_stay ops s k r u h t = Evolves-terminal k r (run-Evolves ops s u) t h
