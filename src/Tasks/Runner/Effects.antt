-- ===== src/Tasks/Runner/Effects.antt =====
-- The calls of a task runner: they change its state and may raise. What was written before an
-- exception stays written.
use wi_fi_test_orchestrator.Prelude.{ℕ, Bool, List}
use wi_fi_test_orchestrator.Tasks.Store.Rows.{Store, Error, Result, ok, err}

-- A `CancellationToken` under its key in `_cancellations`.
pub record Token : Type 0 where
  pub task_id : ℕ
  pub cancelled : Bool

pub record State : Type 0 where
  pub store : Store
  pub cancellations : List Token

-- The exceptions that leave `run`: the store's, and an `asyncio.CancelledError` out of the cleanup.
pub data Failure : Type 0 where
  of_store : Error → Failure
  cancelled_in_cleanup : Failure

pub data Run (A : Type 0) : Type 0 where
  done : A → Run A
  failed_with : Failure → Run A

abbrev pub Call : Type 0 → Type 0
Call A = State → Run A × State

module _ {A : Type 0} where
  abbrev pub pure : A → Call A
  pure a s = (done a, s)

  abbrev pub raise : Failure → Call A
  raise f s = (failed_with f, s)

  abbrev pub gets : (State → A) → Call A
  gets f s = (done (f s), s)

  abbrev of_result : Result A → Run A
  of_result (ok a) = done a
  of_result (err e) = failed_with (of_store e)

  -- A call of the store.
  abbrev pub lift : (Store → Result A × Store) → Call A
  lift call s = (of_result (call s.store).0, record s { store = (call s.store).1 })

abbrev pub modify : (State → State) → Call (Unit {0})
modify f s = (done tt, f s)

module _ {A B : Type 0} where
  abbrev bind : (A → Call B) → Run A × State → Run B × State
  bind next (failed_with f, s) = (failed_with f, s)
  bind next (done a, s) = next a s

  infixl 5 ◌>>=◌
  abbrev pub ◌>>=◌ : Call A → (A → Call B) → Call B
  ◌>>=◌ call next s = bind next (call s)

infixl 5 ◌>>◌
abbrev pub ◌>>◌ : {A B : Type 0} → Call A → Call B → Call B
call >> next = call >>= λ _. next
