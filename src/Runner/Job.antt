-- ===== src/Runner/Job.antt =====
-- `runSetup` and `DockerRunner.Run` of internal/runner/docker.go.
use Prim.Native.String.{◌++◌ as str_append}
use odyssey_core_agent.Prelude.{String, List, [], ◌∷◌, Option, none, some, int_eq, if◌then◌else◌}
use odyssey_core_agent.Prelude.Error.{Error, Arg, errorf, wrapf, Result, ok, err}
use odyssey_core_agent.Prelude.State.{Action, ◌>>=◌, ◌>>◌, pure}
use odyssey_core_agent.Domain.Status.{exit_success}
use odyssey_core_agent.Domain.Result.{JobResult}
use odyssey_core_agent.Domain.Pipeline.{Job}
use odyssey_core_agent.Runner.Docker.{run_context, teardown_context, Docker}
use odyssey_core_agent.Runner.EnvFile.{env_file_path}
use odyssey_core_agent.Runner.Session.{StepSink, Session}
use odyssey_core_agent.Runner.Container.{
  ExecResult, exec_command, pull_image, create_container, start_container, remove_container,
}
use odyssey_core_agent.Runner.Steps.{Round, run_steps}

-- What a setup command's result means: its error, or a complaint about its exit code.
unfoldable pub setup_error : String → ExecResult → Option Error
setup_error command x = elim x.err [
  | some e ↦ some e
  | none ↦
      if int_eq x.exit_code exit_success
      then none
      else some (
          errorf "setup command %q exited with code %d"
            (Arg.text command ∷ Arg.int x.exit_code ∷ []))
]

-- What became of creating the empty env file.
unfoldable pub init_error : Option Error → Option Error
init_error none = none
init_error (some e) = some (wrapf "failed to initialize env file: %w" [] e)

-- What a job returns when it could not be set up.
unfoldable pub setup_failed : Job → Error → JobResult × Option Error
setup_failed job e = (record { job_name = job.name; step_results = []; setup_err = some e }, some e)

-- What a job returns once its steps ran.
unfoldable pub ran : Job → Round → JobResult × Option Error
ran job r = (
  record { job_name = job.name; step_results = r.0; setup_err = none },
  elim r.1 [ none ↦ none | some e ↦ some (wrapf "failed to run steps: %w" [] e) ],
)

module _ {d : Docker} where
  -- The end of a round over the setup commands: give up, or go on.
  unfoldable pub continue_setup :
      Action (Session d) (Option Error) → Option Error → Action (Session d) (Option Error)
  continue_setup rest (some e) = pure (some e)
  continue_setup rest none = rest

  unfoldable pub run_setup : String → List String → Action (Session d) (Option Error)
  run_setup id [] = do
    x ← exec_command run_context id (str_append ": > " env_file_path) []
    pure (init_error x.err)
  run_setup id (command ∷ commands) = do
    x ← exec_command run_context id command []
    continue_setup (run_setup id commands) (setup_error command x)

  -- `Run` once the setup commands ran.
  unfoldable pub after_setup :
      StepSink d → Job → String → Option Error → Action (Session d) (JobResult × Option Error)
  after_setup sink job id (some e) = pure (setup_failed job (wrapf "job setup failed: %w" [] e))
  after_setup sink job id none = do r ← run_steps sink id job.name job.steps []; pure (ran job r)

  -- `Run` once the container is started.
  unfoldable pub after_start :
      StepSink d → Job → String → Option Error → Action (Session d) (JobResult × Option Error)
  after_start sink job id (some e) =
      pure (setup_failed job (wrapf "failed to start container: %w" [] e))
  after_start sink job id none = do e ← run_setup id job.setup; after_setup sink job id e

  -- `Run` between the container's creation and its removal.
  unfoldable pub run_in_container :
      StepSink d → Job → String → Action (Session d) (JobResult × Option Error)
  run_in_container sink job id = do e ← start_container id; after_start sink job id e

  -- The deferred removal runs on every way out; its failure is only logged.
  unfoldable pub run_created :
      StepSink d → Job → Result String → Action (Session d) (JobResult × Option Error)
  run_created sink job (err e) =
      pure (setup_failed job (wrapf "failed to create container: %w" [] e))
  run_created sink job (ok id) = do
    out ← run_in_container sink job id
    remove_container teardown_context id
    pure out

  -- `Run` once the image is pulled.
  unfoldable pub after_pull :
      StepSink d → Job → String → Option Error → Action (Session d) (JobResult × Option Error)
  after_pull sink job project_path (some e) =
      pure (setup_failed job (wrapf "failed to pull image %q: %w" (Arg.text job.image ∷ []) e))
  after_pull sink job project_path none = do
    r ← create_container job project_path
    run_created sink job r

  -- `DockerRunner.Run`
  unfoldable pub run_job : StepSink d → Job → String → Action (Session d) (JobResult × Option Error)
  run_job sink job project_path = do e ← pull_image job.image; after_pull sink job project_path e
