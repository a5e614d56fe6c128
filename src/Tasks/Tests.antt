-- ===== src/Tasks/Tests.antt =====
-- The theorems on the task queue at concrete inputs.
mod Text
mod Data
mod Runs
mod Plugins
use wi_fi_test_orchestrator.Prelude.{
  ℕ, ◌≡◌, refl, String, some, none, List, [], ◌∷◌, length, ◌≤◌, true, ◌↔◌, ◌==◌, if◌then◌else◌,
}
use wi_fi_test_orchestrator.Prelude.Table.{find, update, select, count}
use wi_fi_test_orchestrator.Tasks.State.{
  TaskState, queued, preparing, running, interrupted, duplicate, blocked, completed, is_terminal,
  allowed_transitions, ensure_transition,
}
use wi_fi_test_orchestrator.Tasks.State.Order.{
  terminal_iff, History, here, step, History-length, terminal_reachable,
}
use wi_fi_test_orchestrator.Tasks.Envelope.{LocalTaskEnvelope, logical_effect, digest}
use wi_fi_test_orchestrator.Tasks.Store.Rows.{
  Store, InboxRow, empty, ok, inbox_task, process_restart,
}
use wi_fi_test_orchestrator.Tasks.Store.Ingest.{ingest_task, inbox_row, effect_row}
use wi_fi_test_orchestrator.Tasks.Store.Queue.{decode_row}
use wi_fi_test_orchestrator.Tasks.Store.Claim.{claim_task}
use wi_fi_test_orchestrator.Tasks.Store.Recover.{in_progress, interrupt, recover_interrupted}
use wi_fi_test_orchestrator.Tasks.Store.Ops.{Op, move, read_queue, recover, run}
use wi_fi_test_orchestrator.Tasks.Store.Evolution.{terminal_rows_stay}
use wi_fi_test_orchestrator.Tasks.Store.Once.{claim_once}
use wi_fi_test_orchestrator.Tasks.Store.Restart.{recover_interrupted_idem}
use wi_fi_test_orchestrator.Tasks.Store.Delivery.{ingest_new-decode, ingest_again, ingest_same_key}
use Text.{text_codec}
use Data.{ping, ping_again, queued_row, queued_ping, ping_in}

claim_once_example :
    claim_task 8 9 1 (run text_codec (recover 7 ∷ []) (claim_task 6 7 1 queued_ping).1)
    ≡ (ok none, run text_codec (recover 7 ∷ []) (claim_task 6 7 1 queued_ping).1)
unfolding claim_task run recover_interrupted find update count select inbox_row effect_row
claim_once_example =
    claim_once text_codec (recover 7 ∷ []) queued_ping 6 8 7 9 1 1 queued_row
      (record queued_row { state = interrupted; reason = some process_restart; updated_at = 7 })
      (tt, tt) refl refl refl refl

terminal_rows_stay_example :
    find
      (inbox_task 1)
      (run text_codec (move 7 1 completed running ∷ recover 8 ∷ []) (ping_in completed)).inbox
    ≡ some (record queued_row { state = completed })
unfolding find is_terminal inbox_row
terminal_rows_stay_example =
    terminal_rows_stay text_codec (move 7 1 completed running ∷ recover 8 ∷ []) (ping_in completed)
      1 (record queued_row { state = completed }) (tt, tt) refl refl

ingest_new-decode_example :
    ((ingest_task text_codec 5 0 ping empty).0 ≡ ok queued)
    × ((row : InboxRow) × (find (inbox_task 1) (ingest_task text_codec 5 0 ping empty).1.inbox
          ≡ some row)
        × (row.state ≡ queued)
        × (decode_row text_codec row ≡ some ping))
unfolding find
ingest_new-decode_example = ingest_new-decode text_codec 5 0 ping empty refl refl

ingest_again_example :
    ingest_task text_codec 6 0 ping (ingest_task text_codec 5 0 ping empty).1
    ≡ (ok duplicate, (ingest_task text_codec 5 0 ping empty).1)
unfolding ingest_task find update
ingest_again_example = ingest_again text_codec 5 6 0 0 ping queued empty refl

ingest_same_key_example :
    (ingest_task text_codec 6 0 ping_again (ingest_task text_codec 5 0 ping empty).1).0
    ≡ ok (
        if digest text_codec (text_codec.effect_dict (logical_effect ping))
          == digest text_codec (text_codec.effect_dict (logical_effect ping_again))
        then duplicate
        else blocked)
unfolding ingest_task find update
ingest_same_key_example = ingest_same_key text_codec 5 6 0 0 ping ping_again empty refl refl refl

recover_interrupted_idem_example :
    ((recover_interrupted 8 (ping_in running)).1.inbox
      ≡ update in_progress (interrupt 8) (ping_in running).inbox)
    × (select in_progress (recover_interrupted 8 (ping_in running)).1.inbox ≡ [])
    × (recover_interrupted 9 (recover_interrupted 8 (ping_in running)).1
        ≡ (0, (recover_interrupted 8 (ping_in running)).1))
recover_interrupted_idem_example = recover_interrupted_idem 8 9 (ping_in running) (tt, tt)

terminal_iff_example : (is_terminal interrupted ≡ true) ↔ (allowed_transitions interrupted ≡ [])
terminal_iff_example = terminal_iff interrupted

History-length_example :
    (length (preparing ∷ running ∷ []) ≤ 6)
    × (is_terminal queued ≡ true → length (preparing ∷ running ∷ []) ≡ 0)
unfolding ensure_transition
History-length_example = History-length (step {t = preparing} refl (step {t = running} refl here))

terminal_reachable_example :
    (u : TaskState) × (ts : List TaskState) × History running ts u
    × (is_terminal u ≡ true)
    × (length ts ≤ 2)
terminal_reachable_example = terminal_reachable running
