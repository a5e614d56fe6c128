-- ===== src/Tasks/Store/Queue.antt =====
-- `queued_tasks` of the store.
use wi_fi_test_orchestrator.Prelude.{
  ℕ, Option, none, some, List, [], ◌∷◌, ◌++◌, leb, ◌==◌, if◌then◌else◌, take,
}
use wi_fi_test_orchestrator.Prelude.Table.{select, update}
use wi_fi_test_orchestrator.Tasks.State.{rejected, queued, is_state}
use wi_fi_test_orchestrator.Tasks.Envelope.{LocalTaskEnvelope, Codec, digest}
use wi_fi_test_orchestrator.Tasks.Store.Rows.{
  Store, InboxRow, corrupt_task_row, corrupt_row, task_in,
}
use wi_fi_test_orchestrator.Tasks.Store.Ingest.{quarantine_row}

-- `ORDER BY received_at`, ties in the order of insertion.
insert_by_received : InboxRow → List InboxRow → List InboxRow
insert_by_received row [] = row ∷ []
insert_by_received row (r ∷ rs) =
    if leb row.received_at r.received_at then row ∷ r ∷ rs else r ∷ insert_by_received row rs

pub order_by_received : List InboxRow → List InboxRow
unfolding insert_by_received
order_by_received [] = []
order_by_received (r ∷ rs) = insert_by_received r (order_by_received rs)

module _ {Json : Type 0} (c : Codec Json) where
  checked : InboxRow → Option Json → Option (LocalTaskEnvelope Json)
  unfolding digest
  checked row none = none
  checked row (some payload) =
      if digest c payload == row.payload_hash then c.model_validate payload else none

  -- The task of a row, unless the row is corrupt.
  unfoldable pub decode_row : InboxRow → Option (LocalTaskEnvelope Json)
  unfolding checked
  decode_row row = checked row (c.loads row.payload)

  unfoldable pub reject_corrupt : ℕ → (ℕ → ℕ) → InboxRow → Store → Store
  unfolding quarantine_row
  reject_corrupt now fresh row s =
      let s' = quarantine_row now (fresh row.task_id) row.task_id corrupt_task_row row.payload s in
      record s' {
        inbox =
            update (task_in row.task_id queued)
              (λ r. record r { state = rejected; reason = some corrupt_row; updated_at = now })
              s'.inbox;
      }

  -- The body of the loop, on the tasks so far and the tables.
  unfoldable pub read_by :
      ℕ
      → (ℕ → ℕ)
      → InboxRow
      → Option (LocalTaskEnvelope Json)
      → List (LocalTaskEnvelope Json) × Store
      → List (LocalTaskEnvelope Json) × Store
  unfolding reject_corrupt
  read_by now fresh row (some task) (result, s) = (result ++ task ∷ [], s)
  read_by now fresh row none (result, s) = (result, reject_corrupt now fresh row s)

  -- The loop over the rows that were read.
  unfoldable pub read_rows :
      ℕ
      → (ℕ → ℕ)
      → List InboxRow
      → List (LocalTaskEnvelope Json) × Store
      → List (LocalTaskEnvelope Json) × Store
  unfolding read_by decode_row
  read_rows now fresh [] acc = acc
  read_rows now fresh (row ∷ rows) acc =
      read_rows now fresh rows (read_by now fresh row (decode_row row) acc)

  unfoldable pub queued_tasks : ℕ → (ℕ → ℕ) → ℕ → Store → List (LocalTaskEnvelope Json) × Store
  unfolding read_rows order_by_received
  queued_tasks now fresh limit s =
      read_rows now fresh
        (take limit (order_by_received (select (λ row. is_state row.state queued) s.inbox))) ([], s)
