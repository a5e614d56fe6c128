-- ===== src/Tasks/Runner/Windup.antt =====
-- The end of a run, from the line `current = ...` of `run` on.
use wi_fi_test_orchestrator.Prelude.{
  String, ℕ, ◌≡◌, ◌≢◌, refl, sym, subst, Bool, true, false, Option, none, some, arith, ==_refl,
  if◌then◌else◌, ◌⊎◌, inl, inr, Option-cases,
}
use wi_fi_test_orchestrator.Prelude.Table.{find, delete, find-append, find-delete}
use wi_fi_test_orchestrator.Tasks.State.{
  TaskState, running, cancel_requested, cleaning_up, failed, is_terminal, ensure_transition,
}
use wi_fi_test_orchestrator.Tasks.Envelope.{LocalTaskEnvelope, Codec}
use wi_fi_test_orchestrator.Tasks.Store.Rows.{
  ResultRow, pending, ok, state_conflict, not_json, result_of,
}
use wi_fi_test_orchestrator.Tasks.Store.Claim.{request_cleanup, complete_cleanup}
use wi_fi_test_orchestrator.Tasks.Store.Finish.{
  Payload, finish_with_result, store_result, result_row,
}
use wi_fi_test_orchestrator.Tasks.Runner.{
  State, Run, done, failed_with, of_store, ◌>>=◌, Cleanup, cleaned, cleanup_raised,
  cleanup_cancelled, cleanup_failed, Plugin, ResultDocument, Env, Settled, token_of,
  token_cancelled, pop_token, document, payload_of, result_payload, clean_up, conclude, wind_down,
}
use wi_fi_test_orchestrator.Tasks.Runner.Phases.{
  At, At-unmoved, At-moved, moved, transition-At, transition-conflict, finish-At,
}

-- A run in progress: its task is in the state `st` and has no result, its token has the flag.
pub record Here (id : ℕ) (st : TaskState) (flag : Bool) (s : State) : Type 0 where
  pub at : At id st s.store.inbox
  pub no_result : find (result_of id) s.store.results ≡ none
  pub token : find (token_of id) s.cancellations ≡ some (record { task_id = id; cancelled = flag })

module _ {Json : Type 0} (c : Codec Json) (env : Env Json) where
  -- The run returned a terminal state, which the row of the task has, a result that says so waits in
  -- the outbox, and the token is gone.
  pub record Completed (id : ℕ) (p : Run TaskState × State) : Type 0 where
    pub final : TaskState
    pub returned : p.0 ≡ done final
    pub terminal : is_terminal final ≡ true
    pub at : At id final p.1.store.inbox
    pub result : ResultRow
    pub stored : find (result_of id) p.1.store.results ≡ some result
    pub waits : (result.state ≡ pending) × (result.confirmed_at ≡ none)
    pub written : ResultDocument Json
    pub names : (written.task_id ≡ id) × (written.result_id ≡ env.result_id)
    pub says : written.local_state ≡ final
    pub encoded : env.encode_result written ≡ some result.payload
    pub forgotten : find (token_of id) p.1.cancellations ≡ none

  -- The result has no canonical JSON: the run raised in the cleanup's state, which the row of the task
  -- keeps, there is no result, and the token is still there.
  pub record Unwritten (id : ℕ) (p : Run TaskState × State) : Type 0 where
    pub raised : p.0 ≡ failed_with (of_store not_json)
    pub at : At id cleaning_up p.1.store.inbox
    pub no_result : find (result_of id) p.1.store.results ≡ none
    pub flag : Bool
    pub kept :
        find (token_of id) p.1.cancellations ≡ some (record { task_id = id; cancelled = flag })
    pub document : ResultDocument Json
    pub names : (document.task_id ≡ id) × (document.result_id ≡ env.result_id)
    pub unencodable : env.encode_result document ≡ none

  abbrev pub Ended : ℕ → Run TaskState × State → Type 0
  Ended id p = Completed id p ⊎ Unwritten id p

  final-terminal : (t : TaskState) → ensure_transition cleaning_up t ≡ true → is_terminal t ≡ true
  unfolding ensure_transition is_terminal
  final-terminal t h = ground arith

  -- What the outbox is given.
  abbrev last_payload : LocalTaskEnvelope Json → Plugin Json → Settled Json → Option Payload
  last_payload task plugin settled = result_payload c env (document c env task plugin settled)

  conclude-eq :
      (task : LocalTaskEnvelope Json) (plugin : Plugin Json) (settled : Settled Json) (s : State)
      → (finish_with_result
          (env.now 9)
          env.result_key
          task.task_id
          cleaning_up
          settled.final_state
          (last_payload task plugin settled)
          s.store).0
        ≡ ok tt
      → conclude c env task plugin settled s ≡ (
        done settled.final_state,
        record s {
          store =
              (finish_with_result
                (env.now 9)
                env.result_key
                task.task_id
                cleaning_up
                settled.final_state
                (last_payload task plugin settled)
                s.store).1;
          cancellations = delete (token_of task.task_id) s.cancellations;
        },
      )
  unfolding conclude pop_token
  conclude-eq task plugin settled s h = rw h refl

  -- What the outbox is given, where the document has a canonical JSON.
  conclude-Completed :
      (task : LocalTaskEnvelope Json) (plugin : Plugin Json) (settled : Settled Json) (flag : Bool)
      (encoded : String) (s : State)
      → ensure_transition cleaning_up settled.final_state ≡ true
      → Here task.task_id cleaning_up flag s
      → env.encode_result (document c env task plugin settled) ≡ some encoded
      → Completed task.task_id (conclude c env task plugin settled s)
  unfolding result_payload payload_of document find
  conclude-Completed task plugin settled flag encoded s allowed here e =
      let payload = payload_of c env (document c env task plugin settled) encoded in
      let given : last_payload task plugin settled ≡ some payload = rw e refl in
      let (is_ok, inbox, results) =
        finish-At (env.now 9) env.result_key task.task_id settled.final_state payload s.store
          allowed here.at here.no_result in
      subst (Completed task.task_id) (sym (conclude-eq task plugin settled s (rw given is_ok)))
        (record {
          final = settled.final_state;
          returned = refl;
          terminal = final-terminal settled.final_state allowed;
          at =
              rw (given, inbox)
                (At-moved (env.now 9) task.task_id cleaning_up settled.final_state s.store.inbox
                  here.at);
          result = result_row (env.now 9) env.result_key task.task_id payload;
          stored =
              rw
                (
                  given,
                  results,
                  find-append (result_of task.task_id) s.store.results,
                  here.no_result,
                  ==_refl task.task_id,
                )
                refl;
          waits = (refl, refl);
          written = document c env task plugin settled;
          names = (refl, refl);
          says = refl;
          encoded = e;
          forgotten = find-delete (token_of task.task_id) s.cancellations;
        })

  -- Where it has none.
  conclude-Unwritten :
      (task : LocalTaskEnvelope Json) (plugin : Plugin Json) (settled : Settled Json) (flag : Bool)
      (s : State)
      → ensure_transition cleaning_up settled.final_state ≡ true
      → Here task.task_id cleaning_up flag s
      → env.encode_result (document c env task plugin settled) ≡ none
      → Unwritten task.task_id (conclude c env task plugin settled s)
  unfolding conclude document result_payload finish_with_result store_result
  conclude-Unwritten task plugin settled flag s allowed here e =
      rw (e, allowed)
        (record {
          raised = refl;
          at = here.at;
          no_result = here.no_result;
          flag = flag;
          kept = here.token;
          document = document c env task plugin settled;
          names = (refl, refl);
          unencodable = e;
        })

  conclude-Ended :
      (task : LocalTaskEnvelope Json) (plugin : Plugin Json) (settled : Settled Json) (flag : Bool)
      (s : State)
      → ensure_transition cleaning_up settled.final_state ≡ true
      → Here task.task_id cleaning_up flag s
      → Ended task.task_id (conclude c env task plugin settled s)
  conclude-Ended task plugin settled flag s allowed here =
      elim (Option-cases (env.encode_result (document c env task plugin settled))) [
        | inl e ↦ inr (conclude-Unwritten task plugin settled flag s allowed here e)
        | inr (encoded, e) ↦
            inl (conclude-Completed task plugin settled flag encoded s allowed here e)
      ]

  -- The state in which the cleanup starts.
  abbrev closing : ℕ → TaskState → State → State
  closing id a s = record s {
    store = request_cleanup (env.now 6) id (moved (env.now 5) id a cleaning_up s.store);
  }

  closed-Here :
      (id : ℕ) (a : TaskState) (flag : Bool) (error : Option String) (s : State)
      → Here id a flag s
      → Here id cleaning_up flag
          (record s { store = complete_cleanup (env.now 7) id error (closing id a s).store })
  unfolding request_cleanup complete_cleanup
  closed-Here id a flag error s here = record {
    at = At-moved (env.now 5) id a cleaning_up s.store.inbox here.at;
    no_result = here.no_result;
    token = here.token;
  }

  may_clean_up :
      (flag : Bool)
      → ensure_transition (if flag then cancel_requested else running) cleaning_up ≡ true
  unfolding ensure_transition
  may_clean_up true = refl
  may_clean_up false = refl

  wind_down-closing :
      (task : LocalTaskEnvelope Json) (plugin : Plugin Json) (settled : Settled Json) (flag : Bool)
      (s : State)
      → Here task.task_id (if flag then cancel_requested else running) flag s
      → wind_down c env task plugin settled s
        ≡ (clean_up c env task.task_id (plugin.cleanup task) settled >>= conclude c env task plugin)
            (closing task.task_id (if flag then cancel_requested else running) s)
  unfolding wind_down token_cancelled
  wind_down-closing task plugin settled flag s here =
      rw
        (
          here.token,
          transition-At (env.now 5) task.task_id _ cleaning_up s.store (may_clean_up flag) here.at,
        )
        refl

  -- A token that was cancelled behind the store's back: the compare-and-set fails.
  pub wind_down-conflict :
      (task : LocalTaskEnvelope Json) (plugin : Plugin Json) (settled : Settled Json) (s : State)
      → Here task.task_id running true s
      → ((wind_down c env task plugin settled s).0 ≡ failed_with (of_store state_conflict))
        × At task.task_id running (wind_down c env task plugin settled s).1.store.inbox
  unfolding wind_down token_cancelled ensure_transition
  wind_down-conflict task plugin settled s here =
      rw
        (
          here.token,
          transition-conflict (env.now 5) task.task_id running cancel_requested cleaning_up s.store
              refl refl here.at,
        )
        (
          refl,
          At-unmoved (env.now 5) task.task_id running cancel_requested cleaning_up s.store.inbox
              refl here.at,
        )

  -- A run reaches its end from where its token says that it is.
  pub wind_down-Ended :
      (task : LocalTaskEnvelope Json) (plugin : Plugin Json) (settled : Settled Json) (flag : Bool)
      (s : State)
      → ensure_transition cleaning_up settled.final_state ≡ true
      → plugin.cleanup task ≢ cleanup_cancelled
      → Here task.task_id (if flag then cancel_requested else running) flag s
      → Ended task.task_id (wind_down c env task plugin settled s)
  unfolding clean_up complete_cleanup ensure_transition
  wind_down-Ended task plugin settled flag s allowed stays here =
      rw (wind_down-closing task plugin settled flag s here) (after (plugin.cleanup task) stays)
    where
      after :
          (k : Cleanup)
          → k ≢ cleanup_cancelled
          → Ended task.task_id (
              (clean_up c env task.task_id k settled >>= conclude c env task plugin)
                (closing task.task_id (if flag then cancel_requested else running) s))
      after cleaned stays' =
          conclude-Ended task plugin settled flag _ allowed
            (closed-Here task.task_id (if flag then cancel_requested else running) flag none s here)
      after cleanup_raised stays' =
          conclude-Ended task plugin
            (record settled { final_state = failed; detail = some cleanup_failed }) flag _ refl
            (closed-Here task.task_id (if flag then cancel_requested else running) flag
              (some "cleanup_failed") s here)
      after cleanup_cancelled stays' = absurd (stays' refl)
