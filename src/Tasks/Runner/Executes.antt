-- ===== src/Tasks/Runner/Executes.antt =====
-- The execution of a plugin inside a run: what its calls of `progress` and the arrival of a
-- cancellation leave of the state of the run.
use wi_fi_test_orchestrator.Prelude.{
  Option, none, some, ℕ, suc, ◌≡◌, refl, Bool, true, false, ◌&&◌, arith, ==_refl,
}
use wi_fi_test_orchestrator.Prelude.Table.{find-update}
use wi_fi_test_orchestrator.Tasks.State.{TaskState}
use wi_fi_test_orchestrator.Tasks.Envelope.{LocalTaskEnvelope, Codec}
use wi_fi_test_orchestrator.Tasks.Store.Rows.{Store}
use wi_fi_test_orchestrator.Tasks.Store.Finish.{Payload}
use wi_fi_test_orchestrator.Tasks.Store.Outbox.{queue_progress}
use wi_fi_test_orchestrator.Tasks.Runner.{
  State, Execution, reports, cancel_arrives, ends, Ending, returned, raised, Env, token_of, cancel,
  perform, returns, report, event, event_payload,
}
use wi_fi_test_orchestrator.Tasks.Runner.Windup.{Here}

-- Whether no call of `cancel` arrives, whatever the calls of `progress` return.
unfoldable pub quiet : {Json : Type 0} → Execution Json → Bool
quiet (reports percent next) = quiet (next true) && quiet (next false)
quiet (cancel_arrives rest) = false
quiet (ends ending) = true

-- Whether a call of `cancel` arrives in any case.
unfoldable pub interrupted_by_cancel : {Json : Type 0} → Execution Json → Bool
interrupted_by_cancel (reports percent next) =
    interrupted_by_cancel (next true) && interrupted_by_cancel (next false)
interrupted_by_cancel (cancel_arrives rest) = true
interrupted_by_cancel (ends ending) = false

-- Whether the plugin returns or raises in any case, and is neither late nor cancelled itself.
abbrev pub by_itself : {Json : Type 0} → Ending Json → Bool
by_itself (returned r) = true
by_itself raised = true
by_itself _ = false

unfoldable pub ends_by_itself : {Json : Type 0} → Execution Json → Bool
ends_by_itself (reports percent next) = ends_by_itself (next true) && ends_by_itself (next false)
ends_by_itself (cancel_arrives rest) = ends_by_itself rest
ends_by_itself (ends ending) = by_itself ending

both : (f : Bool → Bool) (b : Bool) → f true && f false ≡ true → f b ≡ true
both f true h = ground (arith, h)
both f false h = ground (arith, h)

queue_progress-keeps :
    (now id n : ℕ) (p : Option Payload) (s : Store)
    → ((queue_progress now id n p s).1.inbox ≡ s.inbox)
      × ((queue_progress now id n p s).1.results ≡ s.results)
unfolding queue_progress
queue_progress-keeps now id n none s = (refl, refl)
queue_progress-keeps now id n (some p) s = ground arith

module _ {Json : Type 0} (c : Codec Json) (env : Env Json) where
  report-Here :
      (task : LocalTaskEnvelope Json) (n percent : ℕ) (st : TaskState) (flag : Bool) (s : State)
      → Here task.task_id st flag s
      → Here task.task_id st flag (record s { store = (report c env task n percent s.store).1 })
  unfolding report event_payload event
  report-Here task n percent st flag s here =
      let (inbox, results) =
        queue_progress-keeps (env.stored_now n) task.task_id n
          (event_payload c env (event c env task n percent)) s.store in
      record { at = rw inbox here.at; no_result = rw results here.no_result; token = here.token }

  pub cancel-Here :
      (id : ℕ) (st : TaskState) (flag : Bool) (s : State)
      → Here id st flag s
      → Here id st true (cancel id s)
  unfolding cancel
  cancel-Here id st flag s here = record {
    at = here.at;
    no_result = here.no_result;
    token =
        rw
          (
            find-update (token_of id) (token_of id) (λ t. record t { cancelled = true })
                s.cancellations (λ x. refl),
            here.token,
            ==_refl id,
          )
          refl;
  }

  pub perform-quiet :
      (task : LocalTaskEnvelope Json) (n : ℕ) (e : Execution Json) (st : TaskState) (flag : Bool)
      (s : State)
      → quiet e ≡ true
      → Here task.task_id st flag s
      → Here task.task_id st flag (perform c env task n e s).1
  unfolding perform quiet
  perform-quiet task n (reports percent next) st flag s q here =
      perform-quiet task (suc n)
        (next (returns c env (report c env task (suc n) percent s.store).0)) st flag
        (record s { store = (report c env task (suc n) percent s.store).1 })
        (both (λ b. quiet (next b)) (returns c env (report c env task (suc n) percent s.store).0) q)
        (report-Here task (suc n) percent st flag s here)
  perform-quiet task n (cancel_arrives rest) st flag s q here = absurd (ground (arith, q))
  perform-quiet task n (ends ending) st flag s q here = here

  -- A token stays cancelled.
  perform-cancelled :
      (task : LocalTaskEnvelope Json) (n : ℕ) (e : Execution Json) (st : TaskState) (s : State)
      → Here task.task_id st true s
      → Here task.task_id st true (perform c env task n e s).1
  unfolding perform
  perform-cancelled task n (reports percent next) st s here =
      perform-cancelled task (suc n)
        (next (returns c env (report c env task (suc n) percent s.store).0)) st
        (record s { store = (report c env task (suc n) percent s.store).1 })
        (report-Here task (suc n) percent st true s here)
  perform-cancelled task n (cancel_arrives rest) st s here =
      perform-cancelled task n rest st (cancel task.task_id s)
        (cancel-Here task.task_id st true s here)
  perform-cancelled task n (ends ending) st s here = here

  pub perform-interrupted :
      (task : LocalTaskEnvelope Json) (n : ℕ) (e : Execution Json) (st : TaskState) (flag : Bool)
      (s : State)
      → interrupted_by_cancel e ≡ true
      → Here task.task_id st flag s
      → Here task.task_id st true (perform c env task n e s).1
  unfolding perform interrupted_by_cancel
  perform-interrupted task n (reports percent next) st flag s q here =
      perform-interrupted task (suc n)
        (next (returns c env (report c env task (suc n) percent s.store).0)) st flag
        (record s { store = (report c env task (suc n) percent s.store).1 })
        (both (λ b. interrupted_by_cancel (next b))
          (returns c env (report c env task (suc n) percent s.store).0) q)
        (report-Here task (suc n) percent st flag s here)
  perform-interrupted task n (cancel_arrives rest) st flag s q here =
      perform-cancelled task n rest st (cancel task.task_id s)
        (cancel-Here task.task_id st flag s here)
  perform-interrupted task n (ends ending) st flag s q here = absurd (ground (arith, q))

  pub perform-by_itself :
      (task : LocalTaskEnvelope Json) (n : ℕ) (e : Execution Json) (s : State)
      → ends_by_itself e ≡ true
      → by_itself (perform c env task n e s).0 ≡ true
  unfolding perform ends_by_itself
  perform-by_itself task n (reports percent next) s q =
      perform-by_itself task (suc n)
        (next (returns c env (report c env task (suc n) percent s.store).0))
        (record s { store = (report c env task (suc n) percent s.store).1 })
        (both (λ b. ends_by_itself (next b))
          (returns c env (report c env task (suc n) percent s.store).0) q)
  perform-by_itself task n (cancel_arrives rest) s q =
      perform-by_itself task n rest (cancel task.task_id s) q
  perform-by_itself task n (ends ending) s q = q
