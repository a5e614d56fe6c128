-- ===== src/Tasks/State/Order.antt =====
-- The transitions of a task as a relation: they lead forward, and end in the terminal states.
use wi_fi_test_orchestrator.Prelude.{
  ℕ, ◌+◌, ◌≤◌, ◌<◌, ◌≡◌, refl, ◌↔◌, true, List, [], ◌∷◌, arith, length,
}
use wi_fi_test_orchestrator.Tasks.State.{
  TaskState, received, duplicate, skipped, queued, preparing, running, cancel_requested,
  cleaning_up, completed, failed, interrupted, is_terminal, allowed_transitions, ensure_transition,
}

-- How far a task has come.
abbrev rank : TaskState → ℕ
rank received = 0
rank queued = 1
rank preparing = 2
rank running = 3
rank cancel_requested = 4
rank cleaning_up = 5
rank _ = 6

-- The states of `TERMINAL_STATES` are those that `ALLOWED_TRANSITIONS` leaves no way out of.
pub terminal_iff : (s : TaskState) → (is_terminal s ≡ true) ↔ (allowed_transitions s ≡ [])
unfolding is_terminal allowed_transitions
terminal_iff s = ground arith

transition-rank : (s t : TaskState) → ensure_transition s t ≡ true → rank s < rank t
unfolding ensure_transition
transition-rank s t h = ground arith

-- A history of a task: each step is a transition that `ensure_transition` lets pass.
pub data History : TaskState → List TaskState → TaskState → Type 0 where
  here : {s : TaskState} → History s [] s
  step :
      {s t u : TaskState} {ts : List TaskState}
      → ensure_transition s t ≡ true
      → History t ts u
      → History s (t ∷ ts) u

History-rank :
    {s u : TaskState} {ts : List TaskState} → History s ts u → rank s + length ts ≤ rank u
History-rank here = omega arith
History-rank (step {s = s} {t = t} h r) = omega (arith, transition-rank s t h, History-rank r)

rank-le : (s : TaskState) → rank s ≤ 6
rank-le s = ground arith

-- A history has at most six steps, and takes none after a terminal state.
pub History-length :
    {s u : TaskState} {ts : List TaskState}
    → History s ts u
    → (length ts ≤ 6) × (is_terminal s ≡ true → length ts ≡ 0)
unfolding is_terminal
History-length {s} {u} r =
    (omega (arith, History-rank r, rank-le u), λ h. ground (arith, History-rank r, rank-le u))

-- From every state a terminal state can be reached, in at most two steps.
pub terminal_reachable :
    (s : TaskState)
    → (u : TaskState) × (ts : List TaskState) × History s ts u
      × (is_terminal u ≡ true)
      × (length ts ≤ 2)
unfolding is_terminal ensure_transition
terminal_reachable received = (duplicate, duplicate ∷ [], step refl here, refl, omega arith)
terminal_reachable queued = (skipped, skipped ∷ [], step refl here, refl, omega arith)
terminal_reachable preparing = (failed, failed ∷ [], step refl here, refl, omega arith)
terminal_reachable running = (interrupted, interrupted ∷ [], step refl here, refl, omega arith)
terminal_reachable cancel_requested =
    (completed, cleaning_up ∷ completed ∷ [], step refl (step refl here), refl, omega arith)
terminal_reachable cleaning_up = (completed, completed ∷ [], step refl here, refl, omega arith)
terminal_reachable s = (s, [], here, refl, omega arith)
