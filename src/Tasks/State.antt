-- ===== src/Tasks/State.antt =====
-- agents/desktop/src/wto_desktop_agent/domain/states.py.
pub mod Order
use wi_fi_test_orchestrator.Prelude.{ℕ, ◌≡◌, Bool, true, false, ◌||◌, List, [], ◌∷◌, arith, ◌==◌}

pub data TaskState : Type 0 where
  received duplicate skipped blocked rejected queued preparing running : TaskState
  cancel_requested cleaning_up completed failed cancelled interrupted : TaskState

-- The states are compared as the strings that the database holds; a number stands for each.
abbrev pub code : TaskState → ℕ
code received = 0
code duplicate = 1
code skipped = 2
code blocked = 3
code rejected = 4
code queued = 5
code preparing = 6
code running = 7
code cancel_requested = 8
code cleaning_up = 9
code completed = 10
code failed = 11
code cancelled = 12
code interrupted = 13

abbrev pub is_state : TaskState → TaskState → Bool
is_state a b = code a == code b

abbrev pub elem_state : TaskState → List TaskState → Bool
elem_state a [] = false
elem_state a (b ∷ bs) = is_state a b || elem_state a bs

pre_execution_terminal : List TaskState
pre_execution_terminal = duplicate ∷ skipped ∷ blocked ∷ rejected ∷ []

execution_terminal : List TaskState
execution_terminal = completed ∷ failed ∷ cancelled ∷ interrupted ∷ []

-- `TERMINAL_STATES`, as a test.
unfoldable pub is_terminal : TaskState → Bool
unfolding pre_execution_terminal execution_terminal
is_terminal s = elem_state s pre_execution_terminal || elem_state s execution_terminal

-- `ALLOWED_TRANSITIONS.get(current, set())`
unfoldable pub allowed_transitions : TaskState → List TaskState
allowed_transitions received = duplicate ∷ skipped ∷ blocked ∷ rejected ∷ queued ∷ []
allowed_transitions queued = preparing ∷ cancel_requested ∷ skipped ∷ blocked ∷ rejected ∷ []
allowed_transitions preparing = running ∷ cancel_requested ∷ failed ∷ interrupted ∷ []
allowed_transitions running = cancel_requested ∷ cleaning_up ∷ interrupted ∷ []
allowed_transitions cancel_requested = cleaning_up ∷ []
allowed_transitions cleaning_up = completed ∷ failed ∷ cancelled ∷ interrupted ∷ []
allowed_transitions _ = []

-- Whether `ensure_transition` returns, rather than raise a `ValueError`.
unfoldable pub ensure_transition : TaskState → TaskState → Bool
unfolding allowed_transitions
ensure_transition current target = elem_state target (allowed_transitions current)

pub is_state-eq : (a b : TaskState) → is_state a b ≡ true → a ≡ b
is_state-eq a b h = ground arith
