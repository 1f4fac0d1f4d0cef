-- ===== src/Scenarios/Runs.antt =====
-- A pipeline of two stages and three jobs, for internal/orchestrator/orchestrator.go.
use odyssey_core_agent.Prelude.{ℕ, String, List, [], ◌∷◌, Option, some, none, pos, ◌≡◌, refl}
use odyssey_core_agent.Prelude.Error.{Error, external}
use odyssey_core_agent.Domain.Status.{passed, worst_status}
use odyssey_core_agent.Domain.Result.{
  StepResult, job_status, aggregate, pipeline_status, stage_status, worst_among, step_status,
}
use odyssey_core_agent.Domain.Pipeline.{Job, Stage, Pipeline, Event}
use odyssey_core_agent.Orchestrator.Bus.{Bus, emit, stamp}
use odyssey_core_agent.Orchestrator.Stage.{
  Answers, Context, job_started_event, job_finished_event, Surroundings, advance_phase, advance,
  advance_at, follow, moves_left, move, wait, spawn, run_stage,
}
use odyssey_core_agent.Orchestrator.Run.{
  World, pipeline_event, context_of, ends_run, run_stages, run,
}
use odyssey_core_agent.Orchestrator.Results.{stage_result, run_stage-result}
use odyssey_core_agent.Orchestrator.FailFast.{FailFast, all_results, run-FailFast, run-passed}
use odyssey_core_agent.Orchestrator.Journal.{Journal, run-Journal}
use odyssey_core_agent.Orchestrator.Interleaving.{
  Interleaves, events_from, nothing_left, run_stage-Interleaves,
}

abbrev job_named : String → Job
job_named name = record { name = name; image = "alpine:3"; setup = []; steps = []; env = [] }

abbrev fast : Stage
fast = record { name = "check"; jobs = job_named "lint" ∷ job_named "test" ∷ [] }

abbrev slow : Stage
slow = record { name = "build"; jobs = job_named "package" ∷ [] }

abbrev demo : Pipeline
demo = record { name = "demo"; stages = fast ∷ slow ∷ [] }

abbrev step_result : StepResult
step_result = record {
  step_name = "make";
  stdout = "";
  stderr = "";
  exit_code = pos 0;
  duration = 7;
  err = none;
}

abbrev step_event : Job → Event
step_event job = record {
  type = "step.started";
  occurred_at = 3;
  run_id = "";
  pipeline = "";
  job = job.name;
  step = "make";
  payload = [];
}

-- The runner reports one step, and the job passes.
abbrev passing : Answers
passing i job = record {
  result = record { job_name = job.name; step_results = step_result ∷ []; setup_err = none };
  err = none;
  events = step_event job ∷ [];
}

-- The goroutines of the stage take turns, and one of them is picked twice as often.
abbrev around : ℕ → Surroundings
around n = record {
  answers = passing;
  schedule = 1 ∷ 0 ∷ 1 ∷ 1 ∷ 0 ∷ 7 ∷ [];
  began = 100;
  ended = 112;
}

-- The same schedule, but every job's setup fails.
abbrev failing : Answers
failing i job = record {
  result = record {
    job_name = job.name;
    step_results = [];
    setup_err = some (external "no such image");
  };
  err = some (external "no such image");
  events = [];
}

abbrev broken : ℕ → Surroundings
broken n = record (around n) { answers = failing }

abbrev down : List Event → Event → Option Error
down before event = some (external "redis is down")

abbrev pub world : World
world = record {
  sink = some down;
  clock = λ n. n;
  started = 1760000000;
  random = some (202 ∷ 254 ∷ []);
  around = around;
  began = 90;
  ended = 120;
}

abbrev context : Context
context = record {
  sink = some down;
  pipeline = "demo";
  run_id = "run-1";
  stage = "check";
  clock = λ n. n;
}

abbrev pub empty : Bus
empty = record { published = []; refused = [] }

run_stage-result_example :
    (run_stage context (around 0) fast empty).0 ≡ stage_result (around 0) fast
run_stage-result_example = run_stage-result context (around 0) fast empty

run-FailFast_example :
    FailFast broken 0 demo.stages
      (run (record world { around = broken }) demo empty).0.stage_results
run-FailFast_example = run-FailFast (record world { around = broken }) demo empty

demo_passed : pipeline_status (run world demo empty).0 ≡ passed
unfolding run run_stages run_stage follow advance_at advance advance_phase spawn wait move
    moves_left context_of job_started_event job_finished_event pipeline_event emit stamp ends_run
    pipeline_status stage_status job_status aggregate worst_among step_status worst_status
demo_passed = refl

run-passed_example : (run world demo empty).0.stage_results ≡ all_results around 0 demo.stages
run-passed_example = run-passed world demo empty demo_passed

run-Journal_example : Journal world demo empty
run-Journal_example = run-Journal world down demo empty refl

run_stage-Interleaves_example :
    Interleaves context empty
      (run_stage context (around 0) fast empty).1
      (events_from context passing 0 fast.jobs)
      (nothing_left fast.jobs)
run_stage-Interleaves_example = run_stage-Interleaves context down refl (around 0) fast empty
