-- ===== src/Runner/Steps.antt =====
-- internal/runner/docker.go: the setup commands and the steps of a job, in its container.
use Prim.Native.String.{◌++◌ as str_append}
use odyssey_core_agent.Prelude.{
  ℕ, String, ◌&&◌, List, [], ◌∷◌, ◌++◌, Option, none, some, int_eq, is_positive, if◌then◌else◌, Map,
}
use odyssey_core_agent.Prelude.Error.{
  Error, Arg, errorf, wrapf, is_deadline_exceeded, Result, ok, err,
}
use odyssey_core_agent.Prelude.State.{Action, ◌>>=◌, ◌>>◌, pure}
use odyssey_core_agent.Prelude.Decimal.{format_int}
use odyssey_core_agent.Domain.Duration.{milliseconds}
use odyssey_core_agent.Domain.Status.{to_string, exit_success, exit_failure, exit_none}
use odyssey_core_agent.Domain.Result.{StepResult, step_status}
use odyssey_core_agent.Domain.Pipeline.{Step, Event, event_step_started, event_step_finished}
use odyssey_core_agent.Runner.Docker.{Context, run_context, step_context, Docker}
use odyssey_core_agent.Runner.EnvFile.{
  env_file_path, parse_env_file, env_slice, newly_exported_keys,
}
use odyssey_core_agent.Runner.Session.{StepSink, Session, ask, log_exports, emit_step, since}
use odyssey_core_agent.Runner.Container.{ExecResult, exec_command}

-- `stepFinishedEvent`, at the instant `at`.
unfoldable pub finished_payload : StepResult → Map String
finished_payload r =
    let timed : Map String =
      ("status", to_string (step_status r))
      ∷ ("duration_ms", format_int (milliseconds r.duration))
      ∷ [] in
    if int_eq r.exit_code exit_none
    then timed
    else timed ++ ("exit_code", format_int r.exit_code) ∷ []

unfoldable pub step_finished_event : String → StepResult → ℕ → Event
step_finished_event job r at = record {
  type = event_step_finished;
  occurred_at = at;
  run_id = "";
  pipeline = "";
  job = job;
  step = r.step_name;
  payload = finished_payload r;
}

unfoldable pub step_started_event : String → Step → ℕ → Event
step_started_event job step at = record {
  type = event_step_started;
  occurred_at = at;
  run_id = "";
  pipeline = "";
  job = job;
  step = step.name;
  payload = [];
}

-- The result of a step whose environment could not be read, before it or after it.
unfoldable pub unread_result : Step → Error → ℕ → StepResult
unread_result step e elapsed = record {
  step_name = step.name;
  stdout = "";
  stderr = "";
  exit_code = exit_none;
  duration = elapsed;
  err = some e;
}

-- `stepRes` as it is filled in after the command.
unfoldable pub executed_result : Step → ExecResult → ℕ → StepResult
executed_result step x elapsed = record {
  step_name = step.name;
  stdout = x.stdout;
  stderr = x.stderr;
  exit_code = x.exit_code;
  duration = elapsed;
  err = none;
}

-- The `switch` on a command's error: the result that is recorded and the error that is returned.
-- `cancelled` is `ctx.Err()` of the run.
unfoldable pub classify : Step → StepResult → Error → Option Error → StepResult × Error
classify step r e (some c) =
    (record r { exit_code = exit_none; err = some (wrapf "run cancelled: %w" [] c) }, c)
classify step r e none =
    if is_positive step.timeout && is_deadline_exceeded e
    then (
      record r { exit_code = exit_failure },
      errorf "step %s timed out after %dms" (Arg.text step.name ∷ Arg.int step.timeout ∷ []),
    )
    else (record r { err = some e }, e)

unfoldable pub error_before : Step → Error → Error
error_before step = wrapf "failed to read exported env before step %q: %w" (Arg.text step.name ∷ [])

unfoldable pub error_after : Step → Error → Error
error_after step = wrapf "failed to read exported env after step %q: %w" (Arg.text step.name ∷ [])

-- The context of a step's command.
unfoldable pub step_context_of : Step → Context
step_context_of step = if is_positive step.timeout then step_context step.timeout else run_context

-- What one round of the loop over the steps appends, and the error with which it leaves the loop.
abbrev pub Round : Type 0
Round = List StepResult × Option Error

-- What `readExportedEnv` makes of the file's print.
unfoldable pub exported_env : ExecResult → Result (Map String)
exported_env x = elim x.err [
  | some e ↦ err e
  | none ↦
      if int_eq x.exit_code exit_success
      then ok (parse_env_file x.stdout)
      else err (errorf "env file read exited with code %d" (Arg.int x.exit_code ∷ []))
]

module _ {d : Docker} where
  unfoldable pub read_exported_env : String → Action (Session d) (Result (Map String))
  read_exported_env id = do
    x ← exec_command run_context id (str_append "cat " env_file_path) []
    pure (exported_env x)

-- The end of a round: leave the loop, or go on with the results appended.
unfoldable pub continue_with :
    {S : Type 0} → (List StepResult → Action S Round) → List StepResult → Round → Action S Round
continue_with rest results (rs, some e) = pure (results ++ rs, some e)
continue_with rest results (rs, none) = rest (results ++ rs)

module _ {d : Docker} (sink : StepSink d) (id : String) (job : String) where
  unfoldable pub emit_started : Step → Action (Session d) (Unit {0})
  emit_started step = do at ← ask d.now; emit_step sink (step_started_event job step at)

  unfoldable pub emit_finished : StepResult → Action (Session d) (Unit {0})
  emit_finished r = do at ← ask d.now; emit_step sink (step_finished_event job r at)

  -- The environment could not be read: the fault becomes a result of the step.
  unfoldable pub report_unread : ℕ → Step → Error → Action (Session d) StepResult
  report_unread start step e = do
    elapsed ← since start
    let r = unread_result step e elapsed
    emit_finished r
    pure r

  -- The round after the step's process has exited: which variables did it export?
  unfoldable pub after_success :
      ℕ → Step → Map String → StepResult → Result (Map String) → Action (Session d) Round
  after_success start step exported r (err e) = do
    unread ← report_unread start step e
    pure (r ∷ unread ∷ [], some (error_after step e))
  after_success start step exported r (ok after) = do
    log_exports step.name (newly_exported_keys exported after)
    pure (r ∷ [], none)

  -- The round after the command, with its result so far and what went wrong.
  unfoldable pub after_exec :
      ℕ → Step → Map String → StepResult → Option Error → Action (Session d) Round
  after_exec start step exported r (some e) = do
    cancelled ← ask (λ w. (d.ctx_err w, w))
    let c = classify step r e cancelled
    emit_finished c.0
    pure (c.0 ∷ [], some c.1)
  after_exec start step exported r none = do
    emit_finished r
    after ← read_exported_env id
    after_success start step exported r after

  -- The round once the variables of earlier steps are read.
  unfoldable pub exec_step : ℕ → Step → Result (Map String) → Action (Session d) Round
  exec_step start step (err e) = do
    r ← report_unread start step e
    pure (r ∷ [], some (error_before step e))
  exec_step start step (ok exported) = do
    x ← exec_command (step_context_of step) id step.run (env_slice exported)
    elapsed ← since start
    after_exec start step exported (executed_result step x elapsed) x.err

  -- One round of the loop over the steps.
  unfoldable pub run_step : Step → Action (Session d) Round
  run_step step = do
    start ← ask d.now
    emit_started step
    exported ← read_exported_env id
    exec_step start step exported

  -- The loop, with the results so far.
  unfoldable pub run_steps : List Step → List StepResult → Action (Session d) Round
  unfolding continue_with
  run_steps [] results = pure (results, none)
  run_steps (step ∷ steps) results = do r ← run_step step; continue_with (run_steps steps) results r
