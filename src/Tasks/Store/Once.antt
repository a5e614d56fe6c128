-- ===== src/Tasks/Store/Once.antt =====
-- The effect of an idempotency key is claimed at most once, over any calls of the store.
use wi_fi_test_orchestrator.Prelude.{
  ℕ, ◌≡◌, refl, true, Option, none, some, List, arith, is_none, if◌then◌else◌, subst,
}
use wi_fi_test_orchestrator.Prelude.Table.{find, count, update, find-eq-some, find-update}
use wi_fi_test_orchestrator.Prelude.Unique.{Unique, count-eq-find}
use wi_fi_test_orchestrator.Tasks.Envelope.{Codec}
use wi_fi_test_orchestrator.Tasks.Store.Rows.{
  Store, InboxRow, EffectRow, ok, inbox_task, effect_key,
}
use wi_fi_test_orchestrator.Tasks.Store.Claim.{claim_task, claim_row, unclaimed}
use wi_fi_test_orchestrator.Tasks.Store.Ops.{Op, claim, apply, run}
use wi_fi_test_orchestrator.Tasks.Store.Growth.{
  effect_id, UniqueEffects, Grows-Unique, claimed, apply-Grows, run-UniqueEffects, run-claimed,
}

claim_row-done :
    (now a id : ℕ) (row : InboxRow) (s : Store)
    → (claim_row now a id (some row) s).0 ≡ ok (some a)
    → (count (unclaimed row.idempotency_key) s.effects ≡ 1)
      × ((claim_row now a id (some row) s).1.effects
          ≡ update
              (unclaimed row.idempotency_key)
              (λ e. record e { claimed_at = some now; updated_at = now })
              s.effects)
unfolding claim_row
claim_row-done now a id row s h = ground arith

-- Where one effect of a key is unclaimed, the update of a claim claims it.
claimed-update :
    (now k : ℕ) (xs : List EffectRow)
    → Unique effect_id xs
    → count (unclaimed k) xs ≡ 1
    → claimed k
        (update (unclaimed k) (λ e. record e { claimed_at = some now; updated_at = now }) xs)
      ≡ true
claimed-update now k xs u h = go (find (effect_key k) xs) refl
  where
    marked :
        find
          (effect_key k)
          (update (unclaimed k) (λ e. record e { claimed_at = some now; updated_at = now }) xs)
        ≡ elim (find (effect_key k) xs) [
          | none ↦ none
          | some e ↦
              some
                (if unclaimed k e then record e { claimed_at = some now; updated_at = now } else e)
        ]
    marked = find-update (unclaimed k) (effect_key k) _ xs (λ x. refl)

    counted : count (unclaimed k) xs ≡ elim (find (effect_key k) xs) [
      | none ↦ 0
      | some e ↦ if is_none e.claimed_at then 1 else 0
    ]
    counted = count-eq-find effect_id k (λ e. is_none e.claimed_at) xs u

    go :
        (o : Option EffectRow)
        → find (effect_key k) xs ≡ o
        → claimed k
            (update (unclaimed k) (λ e. record e { claimed_at = some now; updated_at = now }) xs)
          ≡ true
    go none e = ground (arith, marked, counted)
    go (some x) e = ground (arith, marked, counted, find-eq-some (effect_key k) xs x e)

-- A claim that succeeds claims the effect of the task's key.
claim_task-claimed :
    (now a id : ℕ) (r : InboxRow) (s : Store)
    → UniqueEffects s
    → find (inbox_task id) s.inbox ≡ some r
    → (claim_task now a id s).0 ≡ ok (some a)
    → claimed r.idempotency_key (claim_task now a id s).1.effects ≡ true
unfolding claim_task
claim_task-claimed now a id r s u h done = rw h (
    claim_row-claimed
      (claim_row-done now a id r s (subst (λ o. (claim_row now a id o s).0 ≡ ok (some a)) h done)))
  where
    claim_row-claimed :
        (count (unclaimed r.idempotency_key) s.effects ≡ 1)
          × ((claim_row now a id (some r) s).1.effects
              ≡ update
                  (unclaimed r.idempotency_key)
                  (λ e. record e { claimed_at = some now; updated_at = now })
                  s.effects)
        → claimed r.idempotency_key (claim_row now a id (some r) s).1.effects ≡ true
    claim_row-claimed d = rw d.1 (claimed-update now r.idempotency_key s.effects u d.0)

-- A claim of a task whose effect is claimed returns `None`.
claimed-claim_task :
    (now a id : ℕ) (r : InboxRow) (s : Store)
    → find (inbox_task id) s.inbox ≡ some r
    → UniqueEffects s
    → claimed r.idempotency_key s.effects ≡ true
    → claim_task now a id s ≡ (ok none, s)
unfolding claim_task
claimed-claim_task now a id r s h u taken =
    ground
      (arith, count-eq-find effect_id r.idempotency_key (λ e. is_none e.claimed_at) s.effects u)

module _ {Json : Type 0} (c : Codec Json) where
  -- From tables with one effect for a key: after a claim of a task has returned an attempt, no
  -- claim of a task with its idempotency key returns one, or changes a table, whatever calls of the
  -- store come in between.
  pub claim_once :
      (ops : List (Op Json)) (s : Store) (now now' a a' id id' : ℕ) (r r' : InboxRow)
      → UniqueEffects s
      → find (inbox_task id) s.inbox ≡ some r
      → (claim_task now a id s).0 ≡ ok (some a)
      → find (inbox_task id') (run c ops (claim_task now a id s).1).inbox ≡ some r'
      → r'.idempotency_key ≡ r.idempotency_key
      → claim_task now' a' id' (run c ops (claim_task now a id s).1)
        ≡ (ok none, run c ops (claim_task now a id s).1)
  unfolding claim_task apply
  claim_once ops s now now' a a' id id' r r' u h done h' key =
      claimed-claim_task now' a' id' r' (run c ops (claim_task now a id s).1) h'
        (run-UniqueEffects c ops (claim_task now a id s).1
          (Grows-Unique (apply-Grows c (claim now a id) s) u))
        (rw key (
          run-claimed c ops (claim_task now a id s).1 r.idempotency_key
            (claim_task-claimed now a id r s u h done)))
