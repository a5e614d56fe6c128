-- ===== src/Tasks/Runner/Phases.antt =====
-- What the methods of the store do to a task whose state is known.
use wi_fi_test_orchestrator.Prelude.{
  ℕ, ◌≡◌, refl, true, false, none, some, List, [], ◌∷◌, ◌++◌, arith, ==_refl, if◌then◌else◌,
}
use wi_fi_test_orchestrator.Prelude.Table.{
  find, count, update, find-update, count-append, find-eq-some,
}
use wi_fi_test_orchestrator.Prelude.Unique.{Unique, Unique-update, count-eq-find}
use wi_fi_test_orchestrator.Tasks.State.{
  TaskState, queued, preparing, cleaning_up, is_state, code, ensure_transition,
}
use wi_fi_test_orchestrator.Tasks.Store.Rows.{
  Store, InboxRow, AttemptRow, ok, err, state_conflict, inbox_task, attempt_of, result_of, task_in,
  set_state,
}
use wi_fi_test_orchestrator.Tasks.Store.Claim.{
  attempt_row, unclaimed, claim_task, claim_row, transition, mark_invoked, not_invoked,
}
use wi_fi_test_orchestrator.Tasks.Store.Finish.{
  Payload, finish_with_result, store_result, record_result, result_row,
}
use wi_fi_test_orchestrator.Tasks.Store.Evolves.{task_key}

-- The task has one row, in the state `st`.
pub record At (id : ℕ) (st : TaskState) (xs : List InboxRow) : Type 0 where
  pub unique : Unique task_key xs
  pub row : InboxRow
  pub found : find (inbox_task id) xs ≡ some row
  pub in_state : row.state ≡ st

At-count :
    (id : ℕ) (a b : TaskState) (xs : List InboxRow)
    → At id a xs
    → count (task_in id b) xs ≡ (if is_state a b then 1 else 0)
At-count id a b xs at =
    rw (count-eq-find task_key id (λ r. is_state r.state b) xs at.unique, at.found, at.in_state)
      refl

-- The compare-and-set of a transition whose first state is the task's.
pub At-moved :
    (now id : ℕ) (a b : TaskState) (xs : List InboxRow)
    → At id a xs
    → At id b (update (task_in id a) (set_state now b) xs)
At-moved now id a b xs at = record {
  unique = Unique-update task_key (task_in id a) (set_state now b) xs (λ x. refl) at.unique;
  row = set_state now b at.row;
  found =
      rw
        (
          find-update (task_in id a) (inbox_task id) (set_state now b) xs (λ x. refl),
          at.found,
          find-eq-some (inbox_task id) xs at.row at.found,
          at.in_state,
          ==_refl (code a),
        )
        refl;
  in_state = refl;
}

-- One whose first state is not.
pub At-unmoved :
    (now id : ℕ) (a b t : TaskState) (xs : List InboxRow)
    → is_state a b ≡ false
    → At id a xs
    → At id a (update (task_in id b) (set_state now t) xs)
At-unmoved now id a b t xs off at = record {
  unique = Unique-update task_key (task_in id b) (set_state now t) xs (λ x. refl) at.unique;
  row = at.row;
  found =
      rw
        (
          find-update (task_in id b) (inbox_task id) (set_state now t) xs (λ x. refl),
          at.found,
          find-eq-some (inbox_task id) xs at.row at.found,
          at.in_state,
          off,
        )
        refl;
  in_state = at.in_state;
}

-- The tables after a transition.
abbrev pub moved : ℕ → ℕ → TaskState → TaskState → Store → Store
moved now id a b s = record s { inbox = update (task_in id a) (set_state now b) s.inbox }

pub transition-At :
    (now id : ℕ) (a b : TaskState) (s : Store)
    → ensure_transition a b ≡ true
    → At id a s.inbox
    → transition now id a b s ≡ (ok tt, moved now id a b s)
unfolding transition
transition-At now id a b s allowed at =
    rw (allowed, At-count id a a s.inbox at, ==_refl (code a)) refl

pub transition-conflict :
    (now id : ℕ) (a b t : TaskState) (s : Store)
    → ensure_transition b t ≡ true
    → is_state a b ≡ false
    → At id a s.inbox
    → transition now id b t s ≡ (err state_conflict, moved now id b t s)
unfolding transition
transition-conflict now id a b t s allowed off at =
    rw (allowed, At-count id a b s.inbox at, off) refl

-- A task that may be claimed.
pub record Claimable (id : ℕ) (s : Store) : Type 0 where
  pub at : At id queued s.inbox
  pub effect : count (unclaimed at.row.idempotency_key) s.effects ≡ 1
  pub attempt : find (attempt_of id) s.attempts ≡ none

pub claim_task-Claimable :
    (now a id : ℕ) (s : Store)
    → Claimable id s
    → ((claim_task now a id s).0 ≡ ok (some a))
      × ((claim_task now a id s).1.inbox
          ≡ update (task_in id queued) (set_state now preparing) s.inbox)
      × ((claim_task now a id s).1.attempts ≡ s.attempts ++ attempt_row now a id ∷ [])
      × ((claim_task now a id s).1.results ≡ s.results)
unfolding claim_task claim_row
claim_task-Claimable now a id s ready =
    rw (ready.at.found, ready.at.in_state, ready.effect, ready.attempt) (refl, refl, refl, refl)

-- No row of a task, so none of it under a further condition.
count-not_invoked :
    (id : ℕ) (xs : List AttemptRow) → find (attempt_of id) xs ≡ none → count (not_invoked id) xs ≡ 0
unfolding find count
count-not_invoked id [] h = refl
count-not_invoked id (x ∷ xs) h = ground (arith, count-not_invoked id xs)

pub mark_invoked-new :
    (now then_ a id : ℕ) (xs : List AttemptRow) (s : Store)
    → find (attempt_of id) xs ≡ none
    → s.attempts ≡ xs ++ attempt_row then_ a id ∷ []
    → ((mark_invoked now id s).0 ≡ ok tt)
      × ((mark_invoked now id s).1.inbox ≡ s.inbox)
      × ((mark_invoked now id s).1.results ≡ s.results)
unfolding mark_invoked count
mark_invoked-new now then_ a id xs s h e =
    rw
      (
        e,
        count-append (not_invoked id) xs (attempt_row then_ a id ∷ []),
        count-not_invoked id xs h,
        ==_refl id,
      )
      (refl, refl, refl)

-- The result of a task that has none.
pub finish-At :
    (now key id : ℕ) (t : TaskState) (payload : Payload) (s : Store)
    → ensure_transition cleaning_up t ≡ true
    → At id cleaning_up s.inbox
    → find (result_of id) s.results ≡ none
    → ((finish_with_result now key id cleaning_up t (some payload) s).0 ≡ ok tt)
      × ((finish_with_result now key id cleaning_up t (some payload) s).1.inbox
          ≡ update (task_in id cleaning_up) (set_state now t) s.inbox)
      × ((finish_with_result now key id cleaning_up t (some payload) s).1.results
          ≡ s.results ++ result_row now key id payload ∷ [])
unfolding finish_with_result store_result record_result
finish-At now key id t payload s allowed at h =
    rw
      (
        allowed,
        At-count id cleaning_up cleaning_up s.inbox at,
        (At-moved now id cleaning_up t s.inbox at).found,
        h,
      )
      (refl, refl, refl)
