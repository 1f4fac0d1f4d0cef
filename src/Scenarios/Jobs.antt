-- ===== src/Scenarios/Jobs.antt =====
-- A job of two steps with a simple Docker client, for internal/runner/docker.go.
use odyssey_core_agent.Prelude.{
  ℕ, suc, String, List, [], ◌∷◌, map, none, some, pos, ◌==◌, leb, if◌then◌else◌, ◌≡◌, refl, ap, All,
}
use odyssey_core_agent.Prelude.Error.{Arg, external, wrapf, ok}
use odyssey_core_agent.Domain.Status.{passed, worst_status}
use odyssey_core_agent.Domain.Result.{StepResult, step_status, worst_among, aggregate, job_status}
use odyssey_core_agent.Domain.Verdict.{StepPassed}
use odyssey_core_agent.Domain.Pipeline.{Step, Job}
use odyssey_core_agent.Runner.Docker.{Docker}
use odyssey_core_agent.Runner.Session.{
  Session, StepSink, ask, log_call, log_exports, emit_step, since,
}
use odyssey_core_agent.Runner.Container.{
  after_pull_request, pull_image, after_archive, mount_archive, after_mount, after_create,
  create_container, after_inspect, after_copy, after_attach, after_exec_create, exec_command,
  start_container,
}
use odyssey_core_agent.Runner.EnvFile.{
  newly_exported_keys, parse_env_file, apply_lines, split_lines,
}
use odyssey_core_agent.Runner.Steps.{
  executed_result, exported_env, read_exported_env, continue_with, emit_started, emit_finished,
  after_success, after_exec, exec_step, run_step, run_steps,
}
use odyssey_core_agent.Runner.Job.{
  setup_error, setup_failed, init_error, ran, continue_setup, run_setup, after_setup, after_start,
  run_in_container, run_created, after_pull, run_job,
}
use odyssey_core_agent.Runner.Outcome.{HasRun, run_steps-HasRun}
use odyssey_core_agent.Runner.Verdict.{Broken, run_job_error, run_job-passed}
use odyssey_core_agent.Runner.Lifecycle.{Since, Lifecycle, run_job-Lifecycle}

abbrev last_of : List String → String
last_of [] = ""
last_of (x ∷ []) = x
last_of (x ∷ y ∷ ys) = last_of (y ∷ ys)

-- Every call succeeds; a command prints itself, and `false` exits with code 1. The world is a clock.
abbrev simple : Docker
simple = record {
  World = ℕ;
  Stream = String;
  image_pull = λ w image. (none, w);
  drain = λ w. (none, w);
  container_create = λ w opts. (ok "c1", w);
  create_tar = λ w path. (ok (1 ∷ []), w);
  copy_to_container = λ w id destination bytes. (none, w);
  container_start = λ w id. (none, w);
  container_remove = λ w ctx id. (none, w);
  exec_create = λ w ctx id opts. (ok (last_of opts.cmd), w);
  exec_attach = λ w ctx exec_id. (ok exec_id, w);
  std_copy = λ w stream. (ok (stream, ""), w);
  exec_inspect = λ w ctx exec_id. (ok (if exec_id == "false" then pos 1 else pos 0), w);
  ctx_err = λ w. none;
  now = λ w. (w, suc w);
}

-- The same client, but the image cannot be pulled.
abbrev offline : Docker
offline = record simple { image_pull = λ w image. (some (external "no route"), w) }

abbrev fresh : Session simple
fresh = record { world = 0; calls = []; published = []; refused = []; exports = [] }

abbrev fresh_offline : Session offline
fresh_offline = record { world = 0; calls = []; published = []; refused = []; exports = [] }

abbrev compile : Step
compile = record { name = "compile"; run = "make"; timeout = pos 5000 }

abbrev check : Step
check = record { name = "check"; run = "make check"; timeout = pos 0 }

abbrev build : Job
build = record {
  name = "build";
  image = "golang:1.24";
  setup = "apk add make" ∷ [];
  steps = compile ∷ check ∷ [];
  env = ("CGO_ENABLED", "0") ∷ [];
}

abbrev went_well : String → String → ℕ → StepResult
went_well name print elapsed = record {
  step_name = name;
  stdout = print;
  stderr = "";
  exit_code = pos 0;
  duration = elapsed;
  err = none;
}

-- A sink that fails from the second tick on, and takes two ticks for each event.
abbrev failing : StepSink simple
failing = some (λ w event. (if leb 2 w then some (external "redis is down") else none, suc (suc w)))

-- The whole job succeeds.
build_outcome : (run_job {d = simple} none build "." fresh).0 ≡ (
  record {
    job_name = "build";
    step_results = went_well "compile" "make" 2 ∷ went_well "check" "make check" 2 ∷ [];
    setup_err = none;
  },
  none,
)
unfolding run_job pull_image after_pull_request ask after_pull create_container after_create
    mount_archive after_archive log_call after_mount run_created run_in_container start_container
    after_start run_setup exec_command after_exec_create after_attach after_copy after_inspect
    setup_error continue_setup init_error after_setup run_steps run_step continue_with emit_started
    emit_step read_exported_env exported_env exec_step after_exec emit_finished after_success
    executed_result ran since log_exports parse_env_file apply_lines split_lines newly_exported_keys
build_outcome = refl

build_passed : job_status (run_job {d = simple} none build "." fresh).0.0 ≡ passed
unfolding job_status aggregate worst_among step_status worst_status
build_passed = ap (λ out. job_status out.0) build_outcome

offline_outcome :
    (run_job {d = offline} none build "." fresh_offline).0.1
    ≡ some (wrapf "failed to pull image %q: %w" (Arg.text "golang:1.24" ∷ []) (external "no route"))
unfolding run_job pull_image after_pull_request ask after_pull setup_failed
offline_outcome = refl

run_job-Lifecycle_example : Since Lifecycle fresh (run_job {d = simple} failing build "." fresh).1
run_job-Lifecycle_example = run_job-Lifecycle failing build "." fresh

run_job-passed_example :
    ((run_job {d = simple} none build "." fresh).0.1 ≡ none)
    × (map (λ x. x.step_name) (run_job {d = simple} none build "." fresh).0.0.step_results
        ≡ map (λ x. x.name) build.steps)
    × All StepPassed (run_job {d = simple} none build "." fresh).0.0.step_results
run_job-passed_example = run_job-passed none build "." fresh build_passed

run_job_error_example : Broken (job_status (run_job {d = offline} none build "." fresh_offline).0.0)
run_job_error_example = run_job_error none build "." fresh_offline offline_outcome

run_steps-HasRun_example :
    HasRun
      (compile ∷ check ∷ [])
      (run_steps {d = simple} failing "c1" "build" (compile ∷ check ∷ []) [] fresh).0
run_steps-HasRun_example = run_steps-HasRun failing "c1" "build" (compile ∷ check ∷ []) fresh
