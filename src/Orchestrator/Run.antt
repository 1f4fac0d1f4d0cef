-- ===== src/Orchestrator/Run.antt =====
-- `Orchestrator.Run` of internal/orchestrator/orchestrator.go.
use odyssey_core_agent.Prelude.{
  ℕ, suc, ◌-◌, String, Bool, true, false, List, [], ◌∷◌, ◌++◌, Option, length, if◌then◌else◌, Map,
}
use odyssey_core_agent.Domain.Status.{Status, failed, errored, to_string}
use odyssey_core_agent.Domain.Result.{StageResult, PipelineResult, stage_status, pipeline_status}
use odyssey_core_agent.Domain.Pipeline.{
  Stage, Pipeline, Event, event_pipeline_started, event_pipeline_finished,
}
use odyssey_core_agent.Orchestrator.Bus.{EventSink, Bus, emit, new_run_id}
use odyssey_core_agent.Orchestrator.Stage.{Context, Surroundings, run_stage}

-- `worst == domain.StatusFailed || worst == domain.StatusErrored`
unfoldable pub ends_run : Status → Bool
ends_run failed = true
ends_run errored = true
ends_run _ = false

-- What the world does while a pipeline runs. `around n` is for the n-th stage; `started` is the time in
-- the run's ID, and `began` and `ended` are what the monotonic clock reads before the first stage and
-- behind the last that ran.
pub record World : Type 0 where
  pub sink : EventSink
  pub clock : ℕ → ℕ
  pub started : ℕ
  pub random : Option (List ℕ)
  pub around : ℕ → Surroundings
  pub began : ℕ
  pub ended : ℕ

unfoldable pub pipeline_event : World → String → String → String → Map String → Bus → Event
pipeline_event w type run_id pipeline payload b = record {
  type = type;
  occurred_at = w.clock (length b.published);
  run_id = run_id;
  pipeline = pipeline;
  job = "";
  step = "";
  payload = payload;
}

unfoldable pub context_of : World → String → String → Stage → Context
context_of w run_id pipeline stage = record {
  sink = w.sink;
  pipeline = pipeline;
  run_id = run_id;
  stage = stage.name;
  clock = w.clock;
}

-- The loop over the stages, from the n-th, with the results so far.
unfoldable pub run_stages :
    World → String → String → ℕ → List Stage → List StageResult → Bus → List StageResult × Bus
run_stages w run_id pipeline n [] results b = (results, b)
run_stages w run_id pipeline n (stage ∷ stages) results b =
    let (r, b') = run_stage (context_of w run_id pipeline stage) (w.around n) stage b in
    let rest = run_stages w run_id pipeline (suc n) stages (results ++ r ∷ []) b' in
    if ends_run (stage_status r) then (results ++ r ∷ [], b') else rest

unfoldable pub run : World → Pipeline → Bus → PipelineResult × Bus
run w p b =
    let run_id = new_run_id w.started w.random in
    let b₁ = emit w.sink (pipeline_event w event_pipeline_started run_id p.name [] b) b in
    let (results, b₂) = run_stages w run_id p.name 0 p.stages [] b₁ in
    let result : PipelineResult = record {
      run_id = run_id;
      duration = w.ended - w.began;
      pipeline_name = p.name;
      stage_results = results;
    } in
    let payload : Map String = ("status", to_string (pipeline_status result)) ∷ [] in
    (result, emit w.sink (pipeline_event w event_pipeline_finished run_id p.name payload b₂) b₂)
