-- ===== src/Tasks/Store/Delivery.antt =====
-- What the inbox promises of a delivered task.
use wi_fi_test_orchestrator.Prelude.{
  ℕ, ◌≡◌, refl, Option, none, some, [], ◌∷◌, ◌++◌, arith, ◌==◌, ==_refl, ==_iff, Bool-cases,
  if◌then◌else◌, inl, inr, ap, subst,
}
use wi_fi_test_orchestrator.Prelude.Table.{find, find-append, find-update}
use wi_fi_test_orchestrator.Tasks.State.{TaskState, received, queued, duplicate, blocked}
use wi_fi_test_orchestrator.Tasks.Envelope.{LocalTaskEnvelope, Codec, logical_effect, digest}
use wi_fi_test_orchestrator.Tasks.Store.Rows.{
  Store, InboxRow, EffectRow, Result, idempotency_duplicate, idempotency_conflict, ok, inbox_task,
  effect_key, task_in, set_state,
}
use wi_fi_test_orchestrator.Tasks.Store.Ingest.{
  ingest_task, ingest_by, ingest_new, ingest_known, ingest_repeated, inbox_row, effect_row,
}
use wi_fi_test_orchestrator.Tasks.Store.Queue.{decode_row}

module _ {Json : Type 0} (c : Codec Json) where
  -- The row of a task holds the task: it passes the checks of `queued_tasks`.
  decode_row-inbox_row :
      (now : ℕ) (task : LocalTaskEnvelope Json) (canonical : Option ℕ) (r : InboxRow)
      → r.payload ≡ c.canonical_json (c.model_dump task)
      → r.payload_hash ≡ digest c (c.model_dump task)
      → decode_row c r ≡ some task
  unfolding decode_row
  decode_row-inbox_row now task canonical r p h = ground (
    arith,
    c.loads-canonical_json (c.model_dump task),
    c.model_validate-model_dump task,
    ap c.loads p,
  )

  -- The row of a new task, once the statement that follows the insertion made it queued.
  abbrev queued_row : ℕ → LocalTaskEnvelope Json → InboxRow
  queued_row now task = record (inbox_row c now task none received none) {
    state = queued;
    updated_at = now;
  }

  find-ingest_new :
      (now : ℕ) (task : LocalTaskEnvelope Json) (s : Store)
      → find (inbox_task task.task_id) s.inbox ≡ none
      → find (inbox_task task.task_id) (ingest_new c now task s).1.inbox
        ≡ some (queued_row now task)
  unfolding ingest_new inbox_row find
  find-ingest_new now task s h =
      rw
        (
          find-update (task_in task.task_id received) (inbox_task task.task_id)
              (set_state now queued) (s.inbox ++ inbox_row c now task none received none ∷ [])
              (λ x. refl),
          find-append (inbox_task task.task_id) s.inbox
              (inbox_row c now task none received none ∷ []),
          h,
        )
        (ground (arith, ==_refl task.task_id))

  -- A task whose identifier and idempotency key are new is queued, and the queue reads the task back
  -- from its row as it was delivered.
  pub ingest_new-decode :
      (now q : ℕ) (task : LocalTaskEnvelope Json) (s : Store)
      → find (inbox_task task.task_id) s.inbox ≡ none
      → find (effect_key task.idempotency_key) s.effects ≡ none
      → ((ingest_task c now q task s).0 ≡ ok queued)
        × ((row : InboxRow) × (find (inbox_task task.task_id) (ingest_task c now q task s).1.inbox
              ≡ some row)
            × (row.state ≡ queued)
            × (decode_row c row ≡ some task))
  unfolding ingest_task ingest_by inbox_row digest
  ingest_new-decode now q task s h e =
      rw (h, e)
        (
          refl,
          (
            queued_row now task,
            find-ingest_new now task s h,
            refl,
            decode_row-inbox_row now task none (queued_row now task) refl refl,
          ),
        )

  -- The row of an accepted task has the hash of the task.
  Held : LocalTaskEnvelope Json → Store → Type 0
  Held task s =
      (r : InboxRow) × (find (inbox_task task.task_id) s.inbox ≡ some r)
      × (r.payload_hash ≡ digest c (c.model_dump task))

  ingest_task-Held :
      (now q : ℕ) (task : LocalTaskEnvelope Json) (t : TaskState) (s : Store) (o : Option InboxRow)
      (e : Option EffectRow)
      → find (inbox_task task.task_id) s.inbox ≡ o
      → (ingest_by c now q task o e s).0 ≡ ok t
      → Held task (ingest_by c now q task o e s).1
  unfolding ingest_by ingest_known ingest_repeated ingest_new Held inbox_row digest find
  ingest_task-Held now q task t s (some r) e h a =
      elim (Bool-cases (r.payload_hash == digest c (c.model_dump task))) [
        | inl same ↦ rw same (r, h, (==_iff r.payload_hash (digest c (c.model_dump task))).0 same)
        | inr other ↦ ground (arith, a)
      ]
  ingest_task-Held now q task t s none (some r) h a = (
    inbox_row c now task (some r.canonical_task_id)
        (if r.effect_hash == digest c (c.effect_dict (logical_effect task))
          then duplicate
          else blocked)
        (some (
          if r.effect_hash == digest c (c.effect_dict (logical_effect task))
          then idempotency_duplicate
          else idempotency_conflict)),
    rw (find-append (inbox_task task.task_id) s.inbox, h) (ground (arith, ==_refl task.task_id)),
    refl,
  )
  ingest_task-Held now q task t s none none h a =
      (queued_row now task, find-ingest_new now task s h, refl)

  again-Held :
      (now q : ℕ) (task : LocalTaskEnvelope Json) (s : Store)
      → Held task s
      → ingest_task c now q task s ≡ (ok duplicate, s)
  unfolding ingest_task ingest_by ingest_known digest Held
  again-Held now q task s h = rw h.1 (ground (arith, ==_refl (digest c (c.model_dump task)), h.2))

  -- A task that was accepted is a duplicate when it is delivered again right after, and no table
  -- changes.
  pub ingest_again :
      (now now' q q' : ℕ) (task : LocalTaskEnvelope Json) (t : TaskState) (s : Store)
      → (ingest_task c now q task s).0 ≡ ok t
      → ingest_task c now' q' task (ingest_task c now q task s).1
        ≡ (ok duplicate, (ingest_task c now q task s).1)
  unfolding ingest_task
  ingest_again now now' q q' task t s h = again-Held now' q' task (ingest_task c now q task s).1 (
      ingest_task-Held now q task t s (find (inbox_task task.task_id) s.inbox)
        (find (effect_key task.idempotency_key) s.effects) refl h)

  ingest_by_new :
      (now q : ℕ) (task : LocalTaskEnvelope Json) (s : Store) (o : Option InboxRow)
      (e : Option EffectRow)
      → (ingest_by c now q task o e s).0 ≡ ok queued
      → (ingest_by c now q task o e s ≡ ingest_new c now task s) × (e ≡ none)
  unfolding ingest_by ingest_known ingest_repeated
  ingest_by_new now q task s (some r) e h = ground (arith, h)
  ingest_by_new now q task s none (some r) h = ground (arith, h)
  ingest_by_new now q task s none none h = (refl, refl)

  ingest_new_key :
      (now now' q : ℕ) (task other : LocalTaskEnvelope Json) (s : Store)
      → find (effect_key task.idempotency_key) s.effects ≡ none
      → other.idempotency_key ≡ task.idempotency_key
      → find (inbox_task other.task_id) (ingest_new c now task s).1.inbox ≡ none
      → (ingest_task c now' q other (ingest_new c now task s).1).0
        ≡ ok (
            if digest c (c.effect_dict (logical_effect task))
              == digest c (c.effect_dict (logical_effect other))
            then duplicate
            else blocked)
  unfolding ingest_task ingest_by ingest_repeated ingest_new effect_row find
  ingest_new_key now now' q task other s e k new =
      rw
        (
          new,
          k,
          find-append (effect_key task.idempotency_key) s.effects,
          e,
          ==_refl task.idempotency_key,
        )
        refl

  -- Right after a task was queued, a task with the same idempotency key and an identifier that the
  -- inbox does not hold is not queued: it is a duplicate if its logical effect has the same digest,
  -- and blocked if not.
  pub ingest_same_key :
      (now now' q q' : ℕ) (task other : LocalTaskEnvelope Json) (s : Store)
      → (ingest_task c now q task s).0 ≡ ok queued
      → other.idempotency_key ≡ task.idempotency_key
      → find (inbox_task other.task_id) (ingest_task c now q task s).1.inbox ≡ none
      → (ingest_task c now' q' other (ingest_task c now q task s).1).0
        ≡ ok (
            if digest c (c.effect_dict (logical_effect task))
              == digest c (c.effect_dict (logical_effect other))
            then duplicate
            else blocked)
  unfolding ingest_task
  ingest_same_key now now' q q' task other s h k new =
      let (is_new, e) =
        ingest_by_new now q task s (find (inbox_task task.task_id) s.inbox)
          (find (effect_key task.idempotency_key) s.effects) h in
      rw is_new (
        ingest_new_key now now' q' task other s e k (
          subst (λ (p : Result TaskState × Store). find (inbox_task other.task_id) p.1.inbox ≡ none)
            is_new new))
