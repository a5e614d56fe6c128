-- ===== src/Tasks/Runner/Completes.antt =====
-- What a run promises, from the queue to the result.
use wi_fi_test_orchestrator.Prelude.{
  String, ℕ, ◌≡◌, ◌≢◌, refl, true, false, Option, none, some, arith, ==_refl, leb,
}
use wi_fi_test_orchestrator.Prelude.Table.{find}
use wi_fi_test_orchestrator.Tasks.State.{
  TaskState, queued, preparing, running, cancel_requested, cleaning_up, failed, cancelled,
  ensure_transition,
}
use wi_fi_test_orchestrator.Tasks.Envelope.{LocalTaskEnvelope, Codec}
use wi_fi_test_orchestrator.Tasks.Store.Rows.{Store, ok, state_conflict, result_of}
use wi_fi_test_orchestrator.Tasks.Store.Claim.{claim_task, mark_invoked}
use wi_fi_test_orchestrator.Tasks.Runner.{
  State, Run, failed_with, of_store, ◌>>=◌, Ending, returned, timed_out, was_cancelled, raised,
  cleanup_cancelled, Plugin, Env, cancel, start_token, perform, request_cancel, settle, wind_down,
  run_claimed, run_with, run, final_of, status_completed, status_failed, Status, timeout,
  detail_cancelled, plugin_failed,
}
use wi_fi_test_orchestrator.Tasks.Runner.Phases.{
  At, At-moved, moved, transition-At, Claimable, claim_task-Claimable, mark_invoked-new,
}
use wi_fi_test_orchestrator.Tasks.Runner.Windup.{Here, Ended, wind_down-Ended, wind_down-conflict}
use wi_fi_test_orchestrator.Tasks.Runner.Executes.{
  quiet, interrupted_by_cancel, by_itself, ends_by_itself, perform-quiet, perform-interrupted,
  perform-by_itself, cancel-Here,
}

module _ {Json : Type 0} (c : Codec Json) (env : Env Json) where
  -- A task that the queue returned for the first time.
  pub record Ready (id : ℕ) (s : Store) : Type 0 where
    pub claimable : Claimable id s
    pub no_result : find (result_of id) s.results ≡ none

  -- The state in which the plugin is invoked.
  abbrev claimed : LocalTaskEnvelope Json → Store → Store
  claimed task s = (claim_task (env.now 1) env.attempt_id task.task_id s).1

  abbrev started : LocalTaskEnvelope Json → State → State
  started task s =
      start_token task.task_id (record s {
        store = moved (env.now 2) task.task_id preparing running (claimed task s.store);
      })

  abbrev invoked : LocalTaskEnvelope Json → State → State
  invoked task s = record (started task s) {
    store = (mark_invoked (env.now 3) task.task_id (started task s).store).1;
  }

  -- What is left of the run once the plugin has ended.
  abbrev rest_of :
      LocalTaskEnvelope Json → Plugin Json → Ending Json × State → Run TaskState × State
  rest_of task plugin (ending, s) =
      (settle c env task.task_id ending >>= wind_down c env task plugin) s

  claimed-At :
      (task : LocalTaskEnvelope Json) (s : Store)
      → Ready task.task_id s
      → At task.task_id preparing (claimed task s).inbox
  claimed-At task s ready =
      rw (claim_task-Claimable (env.now 1) env.attempt_id task.task_id s ready.claimable).1
        (At-moved (env.now 1) task.task_id queued preparing s.inbox ready.claimable.at)

  mark_invoked-started :
      (task : LocalTaskEnvelope Json) (s : State)
      → Ready task.task_id s.store
      → ((mark_invoked (env.now 3) task.task_id (started task s).store).0 ≡ ok tt)
        × ((invoked task s).store.inbox ≡ (started task s).store.inbox)
        × ((invoked task s).store.results ≡ (started task s).store.results)
  unfolding start_token
  mark_invoked-started task s ready =
      mark_invoked-new (env.now 3) (env.now 1) env.attempt_id task.task_id s.store.attempts
        (started task s).store ready.claimable.attempt
        (claim_task-Claimable (env.now 1) env.attempt_id task.task_id s.store ready.claimable).2

  invoked-Here :
      (task : LocalTaskEnvelope Json) (s : State)
      → Ready task.task_id s.store
      → Here task.task_id running false (invoked task s)
  unfolding start_token find
  invoked-Here task s ready =
      let claim =
        claim_task-Claimable (env.now 1) env.attempt_id task.task_id s.store ready.claimable in
      let (is_ok, inbox, results) = mark_invoked-started task s ready in
      record {
        at = rw inbox (
            At-moved (env.now 2) task.task_id preparing running (claimed task s.store).inbox
              (claimed-At task s.store ready));
        no_result = rw (results, claim.3) ready.no_result;
        token = rw (==_refl task.task_id) refl;
      }

  run-invoked :
      (registry : String → String → Option (Plugin Json)) (task : LocalTaskEnvelope Json)
      (plugin : Plugin Json) (s : State)
      → Ready task.task_id s.store
      → leb task.expires_at (env.now 0) ≡ false
      → registry task.task_type task.task_type_version ≡ some plugin
      → plugin.accepts task.parameters ≡ true
      → run c env registry task s
        ≡ rest_of task plugin (perform c env task 0 (plugin.execute task) (invoked task s))
  unfolding run run_with run_claimed ensure_transition start_token
  run-invoked registry task plugin s ready timely found accepted =
      rw
        (
          timely,
          found,
          accepted,
          (claim_task-Claimable (env.now 1) env.attempt_id task.task_id s.store ready.claimable).0,
          transition-At (env.now 2) task.task_id preparing running (claimed task s.store) refl
              (claimed-At task s.store ready),
          (mark_invoked-started task s ready).0,
        )
        refl

  requested-Here :
      (id : ℕ) (s : State)
      → Here id running false s
      → Here id cancel_requested true (record (cancel id s) {
        store = moved (env.now 4) id running cancel_requested (cancel id s).store;
      })
  unfolding cancel
  requested-Here id s here =
      let here' = cancel-Here c env id running false s here in
      record {
        at = At-moved (env.now 4) id running cancel_requested s.store.inbox here.at;
        no_result = here.no_result;
        token = here'.token;
      }

  final_of-allowed :
      (status : Status) → ensure_transition cleaning_up (final_of c env status) ≡ true
  unfolding ensure_transition
  final_of-allowed status_completed = refl
  final_of-allowed status_failed = refl

  settle-Ended :
      (task : LocalTaskEnvelope Json) (plugin : Plugin Json) (ending : Ending Json) (s : State)
      → plugin.cleanup task ≢ cleanup_cancelled
      → Here task.task_id running false s
      → Ended c env task.task_id (rest_of task plugin (ending, s))
  unfolding settle request_cancel ensure_transition
  settle-Ended task plugin (returned r) s stays here =
      wind_down-Ended c env task plugin
        (record { result = some r; final_state = final_of c env r.status; detail = none }) false s
        (final_of-allowed r.status) stays here
  settle-Ended task plugin timed_out s stays here =
      rw
        (transition-At (env.now 4) task.task_id running cancel_requested
          (cancel task.task_id s).store refl
          (cancel-Here c env task.task_id running false s here).at)
        (wind_down-Ended c env task plugin
          (record { result = none; final_state = failed; detail = some timeout }) true _ refl stays
          (requested-Here task.task_id s here))
  settle-Ended task plugin was_cancelled s stays here =
      rw
        (transition-At (env.now 4) task.task_id running cancel_requested
          (cancel task.task_id s).store refl
          (cancel-Here c env task.task_id running false s here).at)
        (wind_down-Ended c env task plugin
          (record { result = none; final_state = cancelled; detail = some detail_cancelled }) true _
          refl stays (requested-Here task.task_id s here))
  settle-Ended task plugin raised s stays here =
      wind_down-Ended c env task plugin
        (record { result = none; final_state = failed; detail = some plugin_failed }) false s refl
        stays here

  -- A task that is queued, with one unclaimed effect, no attempt and no result, in time, of a type
  -- that the registry has and with parameters that its plugin accepts, if no call of `cancel` arrives
  -- and nothing cancels the cleanup, ends in one of two ways, however the plugin ends and whatever its
  -- calls of `progress` meet. Either `run` returns a terminal state, the row of the task has that
  -- state, the task has a result in the outbox, pending and unconfirmed, whose payload is the canonical
  -- JSON of a document with that state, and the token is gone. Or the result's document has no canonical JSON,
  -- `run` raises, the row of the task says that it is cleaning up, the task has no result, and the
  -- token is kept.
  pub run-Ended :
      (registry : String → String → Option (Plugin Json)) (task : LocalTaskEnvelope Json)
      (plugin : Plugin Json) (s : State)
      → Ready task.task_id s.store
      → leb task.expires_at (env.now 0) ≡ false
      → registry task.task_type task.task_type_version ≡ some plugin
      → plugin.accepts task.parameters ≡ true
      → quiet (plugin.execute task) ≡ true
      → plugin.cleanup task ≢ cleanup_cancelled
      → Ended c env task.task_id (run c env registry task s)
  run-Ended registry task plugin s ready timely found accepted silent stays =
      rw (run-invoked registry task plugin s ready timely found accepted) (
        settle-Ended task plugin (perform c env task 0 (plugin.execute task) (invoked task s)).0
          (perform c env task 0 (plugin.execute task) (invoked task s)).1 stays
          (perform-quiet c env task 0 (plugin.execute task) running false (invoked task s) silent
            (invoked-Here task s ready)))

  settle-conflict :
      (task : LocalTaskEnvelope Json) (plugin : Plugin Json) (ending : Ending Json) (s : State)
      → by_itself ending ≡ true
      → Here task.task_id running true s
      → ((rest_of task plugin (ending, s)).0 ≡ failed_with (of_store state_conflict))
        × At task.task_id running (rest_of task plugin (ending, s)).1.store.inbox
  unfolding settle
  settle-conflict task plugin (returned r) s alone here =
      wind_down-conflict c env task plugin _ s here
  settle-conflict task plugin raised s alone here = wind_down-conflict c env task plugin _ s here
  settle-conflict task plugin timed_out s alone here = absurd (ground (arith, alone))
  settle-conflict task plugin was_cancelled s alone here = absurd (ground (arith, alone))

  -- For a task that is queued, with one unclaimed effect, no attempt and no result, in time, of a
  -- type that the registry has and with parameters that its plugin accepts: a call of `cancel` that
  -- arrives while the plugin executes stops the run if the plugin then returns or raises by itself.
  -- `run` raises a `StateConflictError`, and leaves the task running in the store.
  pub run_conflict :
      (registry : String → String → Option (Plugin Json)) (task : LocalTaskEnvelope Json)
      (plugin : Plugin Json) (s : State)
      → Ready task.task_id s.store
      → leb task.expires_at (env.now 0) ≡ false
      → registry task.task_type task.task_type_version ≡ some plugin
      → plugin.accepts task.parameters ≡ true
      → interrupted_by_cancel (plugin.execute task) ≡ true
      → ends_by_itself (plugin.execute task) ≡ true
      → ((run c env registry task s).0 ≡ failed_with (of_store state_conflict))
        × At task.task_id running (run c env registry task s).1.store.inbox
  run_conflict registry task plugin s ready timely found accepted cancels alone =
      rw (run-invoked registry task plugin s ready timely found accepted) (
        settle-conflict task plugin (perform c env task 0 (plugin.execute task) (invoked task s)).0
          (perform c env task 0 (plugin.execute task) (invoked task s)).1
          (perform-by_itself c env task 0 (plugin.execute task) (invoked task s) alone)
          (perform-interrupted c env task 0 (plugin.execute task) running false (invoked task s)
            cancels (invoked-Here task s ready)))
