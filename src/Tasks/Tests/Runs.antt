-- ===== src/Tasks/Tests/Runs.antt =====
-- The theorems on the task runner at concrete inputs.
use wi_fi_test_orchestrator.Prelude.{ℕ, ◌+◌, ◌≡◌, refl, String, true, Option, some, [], arith}
use wi_fi_test_orchestrator.Prelude.Table.{find, count}
use wi_fi_test_orchestrator.Tasks.State.{running}
use wi_fi_test_orchestrator.Tasks.Store.Rows.{state_conflict}
use wi_fi_test_orchestrator.Tasks.Store.Ingest.{inbox_row, effect_row}
use wi_fi_test_orchestrator.Tasks.Runner.{
  State, failed_with, of_store, Execution, reports, cancel_arrives, ends, returned, raised, cleaned,
  Plugin, Env, run, status_completed, pass,
}
use wi_fi_test_orchestrator.Tasks.Runner.Phases.{At}
use wi_fi_test_orchestrator.Tasks.Runner.Windup.{Ended}
use wi_fi_test_orchestrator.Tasks.Runner.Executes.{quiet, interrupted_by_cancel, ends_by_itself}
use wi_fi_test_orchestrator.Tasks.Runner.Completes.{Ready, run-Ended, run_conflict}
use wi_fi_test_orchestrator.Tasks.Tests.Text.{text_codec}
use wi_fi_test_orchestrator.Tasks.Tests.Data.{ping, queued_row, queued_ping}

abbrev clock : Env String
clock = record {
  now = λ n. n + 6;
  event_now = λ n. 9;
  stored_now = λ n. 9;
  event_id = λ n. n + 20;
  event_key = λ n. n + 30;
  attempt_id = 40;
  result_id = 41;
  result_key = 42;
  encode_event = λ e. some "event";
  encode_result = λ d. some "result";
}

abbrev plugin_of : Execution String → Plugin String
plugin_of execution = record {
  accepts = λ parameters. true;
  execute = λ task. execution;
  cleanup = λ task. cleaned;
  provider_id = "provider";
  provider_version = "1.0.0";
  method = "ping";
}

-- One report of progress, then a result.
abbrev reporting : Plugin String
reporting = plugin_of (
    reports 50
      (λ b. ends (returned (record { status = status_completed; outcome = pass; metrics = [] }))))

-- A cancellation that the plugin answers by an exception.
abbrev stopping : Plugin String
stopping = plugin_of (cancel_arrives (ends raised))

abbrev only : Plugin String → String → String → Option (Plugin String)
only plugin type version = some plugin

abbrev waiting : State
waiting = record { store = queued_ping; cancellations = [] }

abbrev early : ℕ → Env String
early n = record clock { now = λ k. n }

ready : Ready text_codec (early 6) 1 queued_ping
unfolding find count inbox_row effect_row
ready = record {
  claimable = record {
    at = record { unique = (tt, tt); row = queued_row; found = refl; in_state = refl };
    effect = refl;
    attempt = refl;
  };
  no_result = refl;
}

run-Ended_example :
    Ended text_codec (early 6) 1 (run text_codec (early 6) (only reporting) ping waiting)
unfolding quiet
run-Ended_example =
    run-Ended text_codec (early 6) (only reporting) ping reporting waiting ready refl refl refl refl
      (ground arith)

run_conflict_example :
    ((run text_codec (early 6) (only stopping) ping waiting).0
      ≡ failed_with (of_store state_conflict))
    × At 1 running (run text_codec (early 6) (only stopping) ping waiting).1.store.inbox
unfolding interrupted_by_cancel ends_by_itself
run_conflict_example =
    run_conflict text_codec (early 6) (only stopping) ping stopping waiting ready refl refl refl
      refl refl
