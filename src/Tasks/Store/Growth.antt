-- ===== src/Tasks/Store/Growth.antt =====
-- How the methods of the store change the effects of the idempotency keys: they add effects under
-- new keys, and a claim is never withdrawn.
use wi_fi_test_orchestrator.Prelude.{
  Bool-cases, ℕ, ◌≡◌, refl, Bool, true, false, not, Option, none, some, List, [], ◌∷◌, ◌++◌, arith,
  ◌==◌, is_some, inl, inr, ◌⊎◌, ◌∙◌,
}
use wi_fi_test_orchestrator.Prelude.Table.{find, count, update, find-append, find-update}
use wi_fi_test_orchestrator.Prelude.Unique.{Unique, Unique-append, Unique-update}
use wi_fi_test_orchestrator.Tasks.State.{TaskState, ensure_transition}
use wi_fi_test_orchestrator.Tasks.Envelope.{LocalTaskEnvelope, Codec}
use wi_fi_test_orchestrator.Tasks.Store.Rows.{
  Store, InboxRow, EffectRow, inbox_task, effect_key, set_state, task_in,
}
use wi_fi_test_orchestrator.Tasks.Store.Ingest.{ingest_task, ingest_known, ingest_by}
use wi_fi_test_orchestrator.Tasks.Store.Queue.{queued_tasks, read_rows, read_by, decode_row}
use wi_fi_test_orchestrator.Tasks.Store.Claim.{
  claim_task, claim_row, unclaimed, transition, mark_invoked, request_cleanup, complete_cleanup,
}
use wi_fi_test_orchestrator.Tasks.Store.Finish.{
  Payload, finish_with_result, store_result, record_result,
}
use wi_fi_test_orchestrator.Tasks.Store.Outbox.{queue_progress, confirm_progress, confirm_result}
use wi_fi_test_orchestrator.Tasks.Store.Recover.{recover_interrupted, recover_rows}
use wi_fi_test_orchestrator.Tasks.Store.Ops.{
  Op, ingest, read_queue, claim, move, invoke, ask_cleanup, end_cleanup, finish, report,
  confirm_event, confirm_outcome, recover, apply, run,
}

abbrev pub effect_id : EffectRow → ℕ
effect_id row = row.idempotency_key

abbrev pub UniqueEffects : Store → Type 0
UniqueEffects s = Unique effect_id s.effects

-- How the methods change the effects: a claim is never withdrawn.
pub data Grows : List EffectRow → List EffectRow → Type 0 where
  same : {xs : List EffectRow} → Grows xs xs
  add :
      {xs : List EffectRow} (row : EffectRow)
      → find (effect_key row.idempotency_key) xs ≡ none
      → Grows xs (xs ++ row ∷ [])
  change :
      {xs : List EffectRow} (p : EffectRow → Bool) (f : EffectRow → EffectRow)
      → ((x : EffectRow) → (f x).idempotency_key ≡ x.idempotency_key)
      → ((x : EffectRow) → is_some x.claimed_at ≡ true → is_some (f x).claimed_at ≡ true)
      → Grows xs (update p f xs)

pub Grows-Unique :
    {xs ys : List EffectRow} → Grows xs ys → Unique effect_id xs → Unique effect_id ys
Grows-Unique same u = u
Grows-Unique {xs} (add row e) u = Unique-append effect_id xs row u e
Grows-Unique {xs} (change p f k l) u = Unique-update effect_id p f xs k u

-- Whether the effect of a key is claimed.
abbrev pub claimed : ℕ → List EffectRow → Bool
claimed key xs = elim (find (effect_key key) xs) [ none ↦ false | some e ↦ is_some e.claimed_at ]

pub Grows-claimed :
    {xs ys : List EffectRow} (k : ℕ) → Grows xs ys → claimed k xs ≡ true → claimed k ys ≡ true
Grows-claimed k same h = h
Grows-claimed {xs} k (add row e) h = ground (arith, find-append (effect_key k) xs (row ∷ []))
Grows-claimed {xs} k (change p f kk l) h = go (find (effect_key k) xs) refl
  where
    go : (o : Option EffectRow) → find (effect_key k) xs ≡ o → claimed k (update p f xs) ≡ true
    go none e = ground arith
    go (some x) e =
        ground (arith, l x, find-update p (effect_key k) f xs (λ y. ground (arith, kk y)))

claim_row-effects :
    (now a id : ℕ) (row : InboxRow) (s : Store)
    → ((claim_row now a id (some row) s).1.effects ≡ s.effects)
      ⊎ ((claim_row now a id (some row) s).1.effects
          ≡ update
              (unclaimed row.idempotency_key)
              (λ e. record e { claimed_at = some now; updated_at = now })
              s.effects)
unfolding claim_row
claim_row-effects now a id row s = ground arith

claim_row-Grows :
    (now a id : ℕ) (o : Option InboxRow) (s : Store)
    → Grows s.effects (claim_row now a id o s).1.effects
unfolding claim_row
claim_row-Grows now a id none s = same
claim_row-Grows now a id (some row) s = elim (claim_row-effects now a id row s) [
  | inl e ↦ rw e same
  | inr e ↦ rw e (change _ _ (λ x. refl) (λ x h. refl))
]

record_result-effects :
    (now key id : ℕ) (target : TaskState) (payload : Payload) (row : InboxRow) (before s : Store)
    → ((record_result now key id target payload (some row) before s).1.effects ≡ before.effects)
      ⊎ ((record_result now key id target payload (some row) before s).1.effects
          ≡ update
              (effect_key row.idempotency_key)
              (λ e. record e {
                terminal_state = some target;
                result_id = some payload.id;
                updated_at = now;
              })
              s.effects)
unfolding record_result
record_result-effects now key id target payload row before s = ground arith

record_result-Grows :
    (now key id : ℕ) (target : TaskState) (payload : Payload) (o : Option InboxRow)
    (before s : Store)
    → before.effects ≡ s.effects
    → Grows s.effects (record_result now key id target payload o before s).1.effects
unfolding record_result
record_result-Grows now key id target payload none before s h = rw h same
record_result-Grows now key id target payload (some row) before s h =
    elim (record_result-effects now key id target payload row before s) [
      | inl e ↦ rw (e, h) same
      | inr e ↦ rw e (change _ _ (λ x. refl) (λ x k. k))
    ]

store_result-Grows :
    (now key id : ℕ) (current target : TaskState) (o : Option Payload) (s : Store)
    → Grows s.effects (store_result now key id current target o s).1.effects
unfolding store_result
store_result-Grows now key id current target none s = same
store_result-Grows now key id current target (some payload) s =
    elim (Bool-cases (not (count (task_in id current) s.inbox == 1))) [
      | inl b ↦ rw b same
      | inr b ↦ rw b (
          record_result-Grows now key id target payload (find (inbox_task id) moved.inbox) s moved
            refl)
    ]
  where
    moved : Store
    moved = record s { inbox = update (task_in id current) (set_state now target) s.inbox }

finish-Grows :
    (now key id : ℕ) (current target : TaskState) (payload : Option Payload) (s : Store)
    → Grows s.effects (finish_with_result now key id current target payload s).1.effects
unfolding finish_with_result
finish-Grows now key id current target payload s =
    elim (Bool-cases (not (ensure_transition current target))) [
      | inl b ↦ rw b same
      | inr b ↦ rw b (store_result-Grows now key id current target payload s)
    ]

transition-effects :
    (now id : ℕ) (current target : TaskState) (s : Store)
    → (transition now id current target s).1.effects ≡ s.effects
unfolding transition
transition-effects now id current target s = ground arith

mark_invoked-effects : (now id : ℕ) (s : Store) → (mark_invoked now id s).1.effects ≡ s.effects
unfolding mark_invoked
mark_invoked-effects now id s = ground arith

queue_progress-effects :
    (now id sequence : ℕ) (payload : Option Payload) (s : Store)
    → (queue_progress now id sequence payload s).1.effects ≡ s.effects
unfolding queue_progress
queue_progress-effects now id sequence none s = refl
queue_progress-effects now id sequence (some payload) s = ground arith

recover_rows-effects :
    (now : ℕ) (rows : List InboxRow) (s : Store) → (recover_rows now rows s).effects ≡ s.effects
unfolding recover_rows
recover_rows-effects now [] s = refl
recover_rows-effects now (row ∷ rows) s = recover_rows-effects now rows _

module _ {Json : Type 0} (c : Codec Json) where
  ingest_known-effects :
      (now q : ℕ) (task : LocalTaskEnvelope Json) (row : InboxRow) (s : Store)
      → (ingest_known c now q task row s).1.effects ≡ s.effects
  unfolding ingest_known
  ingest_known-effects now q task row s = ground arith

  ingest_by-Grows :
      (now q : ℕ) (task : LocalTaskEnvelope Json) (o : Option InboxRow) (e : Option EffectRow)
      (s : Store)
      → find (effect_key task.idempotency_key) s.effects ≡ e
      → Grows s.effects (ingest_by c now q task o e s).1.effects
  unfolding ingest_by
  ingest_by-Grows now q task (some row) e s h = rw (ingest_known-effects now q task row s) same
  ingest_by-Grows now q task none (some effect) s h = same
  ingest_by-Grows now q task none none s h = add _ h

  read_rows-effects :
      (now : ℕ) (fresh : ℕ → ℕ) (rows : List InboxRow) (acc : List (LocalTaskEnvelope Json) × Store)
      → (read_rows c now fresh rows acc).1.effects ≡ acc.1.effects
  unfolding read_rows
  read_rows-effects now fresh [] acc = refl
  read_rows-effects now fresh (row ∷ rows) acc =
      read_rows-effects now fresh rows _ ∙ read_by-effects (decode_row c row) acc
    where
      read_by-effects :
          (o : Option (LocalTaskEnvelope Json)) (acc : List (LocalTaskEnvelope Json) × Store)
          → (read_by c now fresh row o acc).1.effects ≡ acc.1.effects
      read_by-effects (some task) acc' = refl
      read_by-effects none acc' = refl

  pub apply-Grows : (op : Op Json) (s : Store) → Grows s.effects (apply c op s).effects
  unfolding apply ingest_task queued_tasks claim_task request_cleanup complete_cleanup
      confirm_progress confirm_result recover_interrupted
  apply-Grows (ingest now q task) s =
      ingest_by-Grows now q task (find (inbox_task task.task_id) s.inbox)
        (find (effect_key task.idempotency_key) s.effects) s refl
  apply-Grows (read_queue now fresh limit) s = rw read_rows-effects same
  apply-Grows (claim now a id) s = claim_row-Grows now a id (find (inbox_task id) s.inbox) s
  apply-Grows (move now id current target) s = rw (transition-effects now id current target s) same
  apply-Grows (invoke now id) s = rw (mark_invoked-effects now id s) same
  apply-Grows (ask_cleanup now id) s = same
  apply-Grows (end_cleanup now id error) s = same
  apply-Grows (finish now key id current target payload) s =
      finish-Grows now key id current target payload s
  apply-Grows (report now id sequence payload) s =
      rw (queue_progress-effects now id sequence payload s) same
  apply-Grows (confirm_event now key) s = same
  apply-Grows (confirm_outcome now key) s = same
  apply-Grows (recover now) s = rw recover_rows-effects same

  pub run-UniqueEffects :
      (ops : List (Op Json)) (s : Store) → UniqueEffects s → UniqueEffects (run c ops s)
  unfolding run
  run-UniqueEffects [] s u = u
  run-UniqueEffects (op ∷ ops) s u =
      run-UniqueEffects ops (apply c op s) (Grows-Unique (apply-Grows op s) u)

  pub run-claimed :
      (ops : List (Op Json)) (s : Store) (k : ℕ)
      → claimed k s.effects ≡ true
      → claimed k (run c ops s).effects ≡ true
  unfolding run
  run-claimed [] s k h = h
  run-claimed (op ∷ ops) s k h =
      run-claimed ops (apply c op s) k (Grows-claimed k (apply-Grows op s) h)
