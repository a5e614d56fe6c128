-- ===== src/Tasks/Store/Ingest.antt =====
-- `ingest_task` and `_quarantine_in_transaction` of the store.
use wi_fi_test_orchestrator.Prelude.{
  ℕ, String, Option, none, some, [], ◌∷◌, ◌++◌, ◌==◌, ◌&&◌, if◌then◌else◌,
}
use wi_fi_test_orchestrator.Prelude.Table.{find, update}
use wi_fi_test_orchestrator.Tasks.State.{TaskState, received, duplicate, blocked, queued, is_state}
use wi_fi_test_orchestrator.Tasks.Envelope.{LocalTaskEnvelope, logical_effect, Codec, digest}
use wi_fi_test_orchestrator.Tasks.Store.Rows.{
  Store, InboxRow, EffectRow, QuarantineReason, task_id_payload_conflict, Reason,
  idempotency_duplicate, idempotency_conflict, Result, ok, err, duplicate_conflict, inbox_task,
  effect_key,
}

-- `_quarantine_in_transaction`, for the table inbox_tasks. Its column `observed_hash` is the hash of
-- `raw_payload`.
unfoldable pub quarantine_row : ℕ → ℕ → ℕ → QuarantineReason → String → Store → Store
quarantine_row now quarantine_id task_id reason raw s = record s {
  quarantine =
      s.quarantine
      ++ record {
        quarantine_id = quarantine_id;
        source_key = task_id;
        reason = reason;
        raw_payload = raw;
        quarantined_at = now;
      }
        ∷ [];
}

module _ {Json : Type 0} (c : Codec Json) where
  -- The row that is inserted for a task.
  unfoldable pub inbox_row :
      ℕ → LocalTaskEnvelope Json → Option ℕ → TaskState → Option Reason → InboxRow
  unfolding digest
  inbox_row now task canonical state reason = record {
    task_id = task.task_id;
    execution_id = task.execution_id;
    idempotency_key = task.idempotency_key;
    task_type = task.task_type;
    task_type_version = task.task_type_version;
    payload = c.canonical_json (c.model_dump task);
    payload_hash = digest c (c.model_dump task);
    effect_hash = digest c (c.effect_dict (logical_effect task));
    canonical_task_id = canonical;
    state = state;
    reason = reason;
    received_at = now;
    expires_at = task.expires_at;
    updated_at = now;
  }

  -- The row of idempotency_effects that the first task with a key inserts.
  unfoldable pub effect_row : ℕ → LocalTaskEnvelope Json → EffectRow
  unfolding digest
  effect_row now task = record {
    idempotency_key = task.idempotency_key;
    effect_hash = digest c (c.effect_dict (logical_effect task));
    canonical_task_id = task.task_id;
    claimed_at = none;
    terminal_state = none;
    result_id = none;
    created_at = now;
    updated_at = now;
  }

  -- A task_id that the inbox holds.
  unfoldable pub ingest_known :
      ℕ → ℕ → LocalTaskEnvelope Json → InboxRow → Store → Result TaskState × Store
  unfolding quarantine_row digest
  ingest_known now quarantine_id task existing s =
      if existing.payload_hash == digest c (c.model_dump task) then (ok duplicate, s) else (
        err duplicate_conflict,
        quarantine_row now quarantine_id task.task_id task_id_payload_conflict
            (c.canonical_json (c.model_dump task)) s,
      )

  -- A new task_id with an idempotency key that has an effect.
  unfoldable pub ingest_repeated :
      ℕ → LocalTaskEnvelope Json → EffectRow → Store → Result TaskState × Store
  unfolding inbox_row digest
  ingest_repeated now task effect s =
      let same = effect.effect_hash == digest c (c.effect_dict (logical_effect task)) in
      let state = if same then duplicate else blocked in
      let reason = if same then idempotency_duplicate else idempotency_conflict in
      (
        ok state,
        record s {
          inbox =
              s.inbox
              ++ inbox_row now task (some effect.canonical_task_id) state (some reason) ∷ [];
        },
      )

  -- A new task_id with a new idempotency key.
  unfoldable pub ingest_new : ℕ → LocalTaskEnvelope Json → Store → Result TaskState × Store
  unfolding inbox_row effect_row
  ingest_new now task s = (
    ok queued,
    record s {
      inbox =
          update (λ row. row.task_id == task.task_id && is_state row.state received)
            (λ row. record row { state = queued; updated_at = now })
            (s.inbox ++ inbox_row now task none received none ∷ []);
      effects = s.effects ++ effect_row now task ∷ [];
    },
  )

  unfoldable pub ingest_by :
      ℕ
      → ℕ
      → LocalTaskEnvelope Json
      → Option InboxRow
      → Option EffectRow
      → Store
      → Result TaskState × Store
  unfolding ingest_known ingest_repeated ingest_new
  ingest_by now quarantine_id task (some existing) effect s =
      ingest_known now quarantine_id task existing s
  ingest_by now quarantine_id task none (some effect) s = ingest_repeated now task effect s
  ingest_by now quarantine_id task none none s = ingest_new now task s

  unfoldable pub ingest_task : ℕ → ℕ → LocalTaskEnvelope Json → Store → Result TaskState × Store
  unfolding ingest_by
  ingest_task now quarantine_id task s =
      ingest_by now quarantine_id task (find (inbox_task task.task_id) s.inbox)
        (find (effect_key task.idempotency_key) s.effects) s
