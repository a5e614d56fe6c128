-- ===== src/Tasks/Store/Restart.antt =====
-- What recovery after a restart promises.
use wi_fi_test_orchestrator.Prelude.{ℕ, ◌≡◌, refl, List, [], ◌∷◌, arith}
use wi_fi_test_orchestrator.Prelude.Table.{select, update}
use wi_fi_test_orchestrator.Tasks.Store.Rows.{Store, InboxRow}
use wi_fi_test_orchestrator.Tasks.Store.Recover.{in_progress, interrupt, recover_interrupted}
use wi_fi_test_orchestrator.Tasks.Store.Evolves.{UniqueTasks}
use wi_fi_test_orchestrator.Tasks.Store.Evolution.{inbox-recover_interrupted}

select-interrupt :
    (now : ℕ) (xs : List InboxRow) → select in_progress (update in_progress (interrupt now) xs) ≡ []
unfolding select update
select-interrupt now [] = refl
select-interrupt now (x ∷ xs) = ground (arith, select-interrupt now xs)

no_rows :
    (now : ℕ) (s : Store) → select in_progress s.inbox ≡ [] → recover_interrupted now s ≡ (0, s)
unfolding recover_interrupted
no_rows now s h = rw h

-- From tables with one row for a task: after a recovery no task is in progress, the rows in
-- progress are interrupted and every other row of the inbox is as it was, and a second recovery
-- finds none and changes nothing.
pub recover_interrupted_idem :
    (now now' : ℕ) (s : Store)
    → UniqueTasks s
    → ((recover_interrupted now s).1.inbox ≡ update in_progress (interrupt now) s.inbox)
      × (select in_progress (recover_interrupted now s).1.inbox ≡ [])
      × (recover_interrupted now' (recover_interrupted now s).1
          ≡ (0, (recover_interrupted now s).1))
recover_interrupted_idem now now' s u =
    (inbox-recover_interrupted now s u, none_left, no_rows now' _ none_left)
  where
    none_left : select in_progress (recover_interrupted now s).1.inbox ≡ []
    none_left = rw (inbox-recover_interrupted now s u) (select-interrupt now s.inbox)
