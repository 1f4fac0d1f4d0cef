-- ===== src/Scenarios/Records.antt =====
-- The events of one run in the results database, for internal/results/store.go.
use odyssey_core_agent.Prelude.{
  ℕ, String, [], ◌∷◌, some, none, pos, ◌≡◌, inl, refl, Map, arith, List, ◌≢◌, inr, eq_iff,
}
use odyssey_core_agent.Prelude.Error.{Arg, errorf, ok}
use odyssey_core_agent.Domain.Result.{StepResult}
use odyssey_core_agent.Orchestrator.Bus.{stamp}
use odyssey_core_agent.Runner.Steps.{step_finished_event}
use odyssey_core_agent.Results.StepRows.{row_of, record_event-step_finished_event}
use odyssey_core_agent.Domain.Pipeline.{Event}
use odyssey_core_agent.Results.Tables.{Tables, update_where, select_id, is_run, is_job, is_step}
use odyssey_core_agent.Results.Rows.{parsed_at, execute, found_row, run_row, job_row_in, job_row}
use odyssey_core_agent.Results.Store.{
  insert_job, record_job_started, update_step, record_step_finished, record_event,
}
use odyssey_core_agent.Results.Statements.{no_faults}
use odyssey_core_agent.Results.Redelivery.{record_event-redelivered}
use odyssey_core_agent.Results.Schema.{IsSound}
use odyssey_core_agent.Results.Integrity.{record_event-IsSound}
use odyssey_core_agent.Results.Sequence.{InOrder, AllRecorded, record_event-InOrder}
use odyssey_core_agent.Results.Failure.{record_event-error}

abbrev pub noon : ℕ → String
noon at = "2026-10-09T12:00:00Z"

abbrev pub under_way : Tables
under_way = record {
  runs =
      record {
        id = 1;
        run_id = "run-1";
        pipeline = "demo";
        status = "pending";
        started_at = "2026-10-09T12:00:00Z";
        finished_at = none;
      }
      ∷ [];
  jobs =
      record {
        id = 1;
        run_id = 1;
        name = "build";
        stage = "first";
        status = "pending";
        started_at = "2026-10-09T12:00:00Z";
        finished_at = none;
      }
      ∷ [];
  steps =
      record {
        id = 1;
        job_id = 1;
        name = "compile";
        status = "pending";
        exit_code = none;
        duration_ms = none;
        payload = "{}";
      }
      ∷ [];
}

abbrev of_run : String → String → Map String → Event
of_run run_id type payload = record {
  type = type;
  occurred_at = 3;
  run_id = run_id;
  pipeline = "demo";
  job = "build";
  step = "compile";
  payload = payload;
}

abbrev finished : Event
finished =
    of_run "run-1" "step.finished"
      (("status", "passed") ∷ ("exit_code", "0") ∷ ("duration_ms", "1200") ∷ [])

abbrev stray : Event
stray = of_run "run-2" "job.started" (("stage", "first") ∷ [])

finished_recorded : (record_event noon no_faults finished under_way).0 ≡ none
unfolding record_event record_step_finished update_step job_row job_row_in run_row found_row
    select_id is_run is_job parsed_at execute
finished_recorded = refl

stray_refused :
    (record_event noon no_faults stray under_way).0
    ≡ some (errorf "results: event references unknown run %q" (Arg.text "run-2" ∷ []))
unfolding record_event record_job_started insert_job run_row found_row select_id is_run
stray_refused = refl

record_event-redelivered_example :
    record_event noon no_faults finished (record_event noon no_faults finished under_way).1
    ≡ (none, (record_event noon no_faults finished under_way).1)
record_event-redelivered_example =
    record_event-redelivered noon no_faults finished under_way finished_recorded

record_event-error_example : (record_event noon no_faults stray under_way).1 ≡ under_way
record_event-error_example = record_event-error noon no_faults stray under_way stray_refused

under_way-IsSound : IsSound under_way
under_way-IsSound = record {
  runs_unique = (tt, tt);
  jobs_unique = (tt, tt);
  steps_unique = (tt, tt);
  jobs_refer = (inl refl, tt);
  steps_refer = (inl refl, tt);
}

record_event-IsSound_example : IsSound (record_event noon no_faults finished under_way).1
record_event-IsSound_example =
    record_event-IsSound noon no_faults finished under_way under_way-IsSound

-- The step ended with exit code 137 after a second.
abbrev killed : StepResult
killed = record {
  step_name = "compile";
  stdout = "";
  stderr = "";
  exit_code = pos 137;
  duration = 1_000_000_000;
  err = none;
}

build_found : job_row no_faults "run-1" "build" under_way ≡ ok 1
unfolding job_row job_row_in run_row found_row select_id is_run is_job
build_found = refl

record_event-step_finished_event_example :
    record_event noon no_faults
      (stamp "demo" "run-1" (step_finished_event "build" killed 9))
      under_way
    ≡ (
      none,
      record under_way {
        steps = update_where (is_step 1 "compile") (row_of killed) under_way.steps;
      },
    )
record_event-step_finished_event_example =
    record_event-step_finished_event noon no_faults "demo" "run-1" "build" killed 9 under_way
      (omega arith) (omega arith) build_found refl

abbrev begun : Event
begun = of_run "run-7" "pipeline.started" []

abbrev whole_run : List Event
whole_run =
    of_run "run-7" "job.started" (("stage", "first") ∷ [])
    ∷ of_run "run-7" "step.started" []
    ∷ of_run "run-7" "step.finished" (("status", "passed") ∷ ("exit_code", "0") ∷ [])
    ∷ of_run "run-7" "job.finished" (("status", "passed") ∷ [])
    ∷ of_run "run-7" "pipeline.finished" (("status", "passed") ∷ [])
    ∷ []

begun_run_id : begun.run_id ≢ ""
begun_run_id = λ e. (let same = (eq_iff begun.run_id "").1 e in cc)

whole_run-InOrder : InOrder "run-7" [] whole_run
unfolding parsed_at
whole_run-InOrder = (
  refl,
  inl (
    refl,
    (
      refl,
      inr (
        inr (inl refl, inr (inl refl)),
        (
          refl,
          inr (
            inr (inl refl, inr (inr (refl, ((some (pos 0), refl), (none, refl))))),
            (refl, inr (inr (inl refl, inl refl), (refl, inr (inl refl, tt)))),
          ),
        ),
      ),
    ),
  ),
)

record_event-InOrder_example : AllRecorded noon (begun ∷ whole_run) under_way
record_event-InOrder_example =
    record_event-InOrder noon begun whole_run under_way refl begun_run_id whole_run-InOrder
