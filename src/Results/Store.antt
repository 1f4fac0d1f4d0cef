-- ===== src/Results/Store.antt =====
-- `Store.Record` of internal/results/store.go.
use odyssey_core_agent.Prelude.{
  ℕ, String, Bool, true, false, [], ◌++◌, ◌∷◌, Option, none, some, ℤ, ◌==◌, if◌then◌else◌,
}
use odyssey_core_agent.Prelude.Error.{Error, Arg, errorf, wrapf, Result, ok, err}
use odyssey_core_agent.Domain.Status.{pending, to_string}
use odyssey_core_agent.Domain.Pipeline.{
  Event, event_pipeline_started, event_pipeline_finished, event_job_started, event_job_finished,
  event_step_started, event_step_finished,
}
use odyssey_core_agent.Results.Rows.{
  Faults, payload_at, parsed_at, execute, run_row, job_row, job_args, step_args,
}
use odyssey_core_agent.Results.Tables.{
  RunRow, JobRow, StepRow, Tables, next_id, insert_unless, update_where, is_run, is_job, is_step,
}

abbrev pub new_run : (ℕ → String) → Event → Tables → RunRow
new_run stamp event t = record {
  id = next_id (λ row. row.id) 0 t.runs;
  run_id = event.run_id;
  pipeline = event.pipeline;
  status = to_string pending;
  started_at = stamp event.occurred_at;
  finished_at = none;
}

-- `recordPipelineStarted`, once it is known whether the run id is empty.
unfoldable pub insert_run : (ℕ → String) → Faults → Event → Tables → Bool → Option Error × Tables
insert_run stamp faults event t true =
    (some (errorf "results: pipeline.started without run id" []), t)
insert_run stamp faults event t false =
    execute faults.of_statement (wrapf "results: record run %s: %w" (Arg.text event.run_id ∷ []))
      (record t { runs = insert_unless (is_run event.run_id) (new_run stamp event t) t.runs }) t

unfoldable pub record_pipeline_started :
    (ℕ → String) → Faults → Event → Tables → Option Error × Tables
record_pipeline_started stamp faults event t = insert_run stamp faults event t (event.run_id == "")

abbrev pub finished_run : (ℕ → String) → Event → RunRow → RunRow
finished_run stamp event row = record row {
  status = payload_at event "status";
  finished_at = some (stamp event.occurred_at);
}

abbrev pub new_job : (ℕ → String) → Event → Tables → ℕ → JobRow
new_job stamp event t run = record {
  id = next_id (λ row. row.id) 0 t.jobs;
  run_id = run;
  name = event.job;
  stage = payload_at event "stage";
  status = to_string pending;
  started_at = stamp event.occurred_at;
  finished_at = none;
}

abbrev pub finished_job : (ℕ → String) → Event → JobRow → JobRow
finished_job stamp event row = record row {
  status = payload_at event "status";
  finished_at = some (stamp event.occurred_at);
}

abbrev pub new_step : Event → Tables → ℕ → StepRow
new_step event t job = record {
  id = next_id (λ row. row.id) 0 t.steps;
  job_id = job;
  name = event.step;
  status = to_string pending;
  exit_code = none;
  duration_ms = none;
  payload = "{}";
}

abbrev pub finished_step : Event → Option ℤ → Option ℤ → StepRow → StepRow
finished_step event code duration row = record row {
  status = payload_at event "status";
  exit_code = code;
  duration_ms = duration;
}

unfoldable pub record_pipeline_finished :
    (ℕ → String) → Faults → Event → Tables → Option Error × Tables
record_pipeline_finished stamp faults event t =
    execute faults.of_statement (wrapf "results: finish run %s: %w" (Arg.text event.run_id ∷ []))
      (record t { runs = update_where (is_run event.run_id) (finished_run stamp event) t.runs }) t

-- `recordJobStarted`, once the run's row is known.
unfoldable pub insert_job :
    (ℕ → String) → Faults → Event → Tables → Result ℕ → Option Error × Tables
insert_job stamp faults event t (err e) = (some e, t)
insert_job stamp faults event t (ok run) =
    execute faults.of_statement (wrapf "results: record job %s/%s: %w" (job_args event))
      (record t { jobs = insert_unless (is_job run event.job) (new_job stamp event t run) t.jobs })
      t

unfoldable pub record_job_started : (ℕ → String) → Faults → Event → Tables → Option Error × Tables
record_job_started stamp faults event t =
    insert_job stamp faults event t (run_row faults event.run_id t)

-- `recordJobFinished`, once the run's row is known.
unfoldable pub update_job :
    (ℕ → String) → Faults → Event → Tables → Result ℕ → Option Error × Tables
update_job stamp faults event t (err e) = (some e, t)
update_job stamp faults event t (ok run) =
    execute faults.of_statement (wrapf "results: finish job %s/%s: %w" (job_args event))
      (record t { jobs = update_where (is_job run event.job) (finished_job stamp event) t.jobs }) t

unfoldable pub record_job_finished : (ℕ → String) → Faults → Event → Tables → Option Error × Tables
record_job_finished stamp faults event t =
    update_job stamp faults event t (run_row faults event.run_id t)

-- `recordStepStarted`, once the job's row is known.
unfoldable pub insert_step : Faults → Event → Tables → Result ℕ → Option Error × Tables
insert_step faults event t (err e) = (some e, t)
insert_step faults event t (ok job) =
    execute faults.of_statement (wrapf "results: record step %s/%s/%s: %w" (step_args event))
      (record t { steps = insert_unless (is_step job event.step) (new_step event t job) t.steps }) t

unfoldable pub record_step_started : Faults → Event → Tables → Option Error × Tables
record_step_started faults event t =
    insert_step faults event t (job_row faults event.run_id event.job t)

-- A number of the payload that cannot be read.
unfoldable pub bad_number : Event → String → String → Error → Error
bad_number event format key e =
    wrapf format (step_args event ++ Arg.text (payload_at event key) ∷ []) e

-- `recordStepFinished`, once the job's row and the numbers are known.
unfoldable pub update_step :
    Faults
    → Event
    → Tables
    → Result ℕ
    → Result (Option ℤ)
    → Result (Option ℤ)
    → Option Error × Tables
update_step faults event t (err e) code duration = (some e, t)
update_step faults event t (ok job) (err e) duration =
    (some (bad_number event "results: step %s/%s/%s bad exit_code %q: %w" "exit_code" e), t)
update_step faults event t (ok job) (ok code) (err e) =
    (some (bad_number event "results: step %s/%s/%s bad duration_ms %q: %w" "duration_ms" e), t)
update_step faults event t (ok job) (ok code) (ok duration) =
    execute faults.of_statement (wrapf "results: finish step %s/%s/%s: %w" (step_args event))
      (record t {
        steps = update_where (is_step job event.step) (finished_step event code duration) t.steps;
      })
      t

unfoldable pub record_step_finished : Faults → Event → Tables → Option Error × Tables
record_step_finished faults event t =
    update_step faults event t (job_row faults event.run_id event.job t)
      (parsed_at event "exit_code") (parsed_at event "duration_ms")

-- `Store.Record`. `stamp` renders an instant.
unfoldable pub record_event : (ℕ → String) → Faults → Event → Tables → Option Error × Tables
record_event stamp faults event t =
    if event.type == event_pipeline_started
    then record_pipeline_started stamp faults event t
    else if event.type == event_pipeline_finished
    then record_pipeline_finished stamp faults event t
    else if event.type == event_job_started
    then record_job_started stamp faults event t
    else if event.type == event_job_finished
    then record_job_finished stamp faults event t
    else if event.type == event_step_started
    then record_step_started faults event t
    else if event.type == event_step_finished
    then record_step_finished faults event t
    else (none, t)
