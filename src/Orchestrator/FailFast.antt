-- ===== src/Orchestrator/FailFast.antt =====
-- Which stages `Run` of internal/orchestrator/orchestrator.go runs, and with what results.
use odyssey_core_agent.Prelude.{
  arith, ◌≡◌, ◌≢◌, subst, All, refl, sym, ◌∙◌, ◌⊎◌, inl, inr, ℕ, suc, String, true, false, List, [],
  ◌∷◌, ◌++◌, append-nil, append_assoc,
}
use odyssey_core_agent.Domain.Status.{Status, passed, failed, errored}
use odyssey_core_agent.Domain.Result.{StageResult, stage_status, pipeline_status}
use odyssey_core_agent.Domain.Worst.{aggregate-passed_iff}
use odyssey_core_agent.Domain.Pipeline.{Stage, Pipeline, event_pipeline_started}
use odyssey_core_agent.Orchestrator.Bus.{Bus, emit, new_run_id}
use odyssey_core_agent.Orchestrator.Stage.{Surroundings, run_stage}
use odyssey_core_agent.Orchestrator.Run.{
  World, ends_run, pipeline_event, context_of, run_stages, run,
}
use odyssey_core_agent.Orchestrator.Results.{stage_result, run_stage-result}

-- The result list of a run of these stages: it ends with the first stage that failed or met a fault,
-- or else has all of them. The n-th stage has the result that its runner's answers make.
pub data FailFast (around : ℕ → Surroundings) : ℕ → List Stage → List StageResult → Type 0 where
  all_ran : {n : ℕ} → FailFast around n [] []
  ended :
      {n : ℕ} {stage : Stage} {skipped : List Stage}
      → (stage_status (stage_result (around n) stage) ≡ failed)
        ⊎ (stage_status (stage_result (around n) stage) ≡ errored)
      → FailFast around n (stage ∷ skipped) (stage_result (around n) stage ∷ [])
  went_on :
      {n : ℕ} {stage : Stage} {stages : List Stage} {results : List StageResult}
      → stage_status (stage_result (around n) stage) ≢ failed
      → stage_status (stage_result (around n) stage) ≢ errored
      → FailFast around (suc n) stages results
      → FailFast around n (stage ∷ stages) (stage_result (around n) stage ∷ results)

ends_run-cases :
    (s : Status)
    → ((ends_run s ≡ true) × ((s ≡ failed) ⊎ (s ≡ errored)))
      ⊎ ((ends_run s ≡ false) × (s ≢ failed) × (s ≢ errored))
unfolding ends_run
ends_run-cases s = ground arith

-- The results that a loop over these stages adds to those before it.
abbrev Adds : World → ℕ → List Stage → List StageResult → List StageResult → Type 0
Adds w n stages before after =
    (results : List StageResult) × (after ≡ before ++ results) × FailFast w.around n stages results

run_stages-Adds :
    (w : World) (run_id pipeline : String) (n : ℕ) (stages : List Stage) (before : List StageResult)
    (b : Bus)
    → Adds w n stages before (run_stages w run_id pipeline n stages before b).0
unfolding run_stages
run_stages-Adds w run_id pipeline n [] before b = ([], sym (append-nil before), all_ran)
run_stages-Adds w run_id pipeline n (stage ∷ stages) before b =
    let c = context_of w run_id pipeline stage in
    let r = stage_result (w.around n) stage in
    let same = run_stage-result c (w.around n) stage b in
    let (results, e, rest) =
      run_stages-Adds w run_id pipeline (suc n) stages (before ++ r ∷ [])
        (run_stage c (w.around n) stage b).1 in
    rw same (elim (ends_run-cases (stage_status r)) [
      | inl (ends, h) ↦ rw ends (r ∷ [], refl, ended h)
      | inr (goes, h, k) ↦
          rw goes (r ∷ results, e ∙ append_assoc before (r ∷ []) results, went_on h k rest)
    ])

-- Stages run fail-fast: the results of a run are those of its stages in their order, each made from
-- the runner's answers to its jobs, up to the first stage that failed or errored, which is the last
-- to run; if there is none, every stage ran.
pub run-FailFast :
    (w : World) (p : Pipeline) (b : Bus) → FailFast w.around 0 p.stages (run w p b).0.stage_results
unfolding run
run-FailFast w p b =
    let run_id = new_run_id w.started w.random in
    let (results, e, h) =
      run_stages-Adds w run_id p.name 0 p.stages []
        (emit w.sink (pipeline_event w event_pipeline_started run_id p.name [] b) b) in
    subst (FailFast w.around 0 p.stages) (sym e) h

-- The results of all these stages, none left out.
abbrev pub all_results : (ℕ → Surroundings) → ℕ → List Stage → List StageResult
all_results around n [] = []
all_results around n (stage ∷ stages) =
    stage_result (around n) stage ∷ all_results around (suc n) stages

FailFast-passed :
    {around : ℕ → Surroundings} {n : ℕ} {stages : List Stage} {results : List StageResult}
    → FailFast around n stages results
    → All (λ r. stage_status r ≡ passed) results
    → results ≡ all_results around n stages
FailFast-passed all_ran h = refl
FailFast-passed (ended (inl e)) h = cc
FailFast-passed (ended (inr e)) h = cc
FailFast-passed (went_on _ _ rest) h = let same = FailFast-passed rest h.1 in cc

-- A pipeline passed only if every one of its stages ran, with no result missing or out of order.
pub run-passed :
    (w : World) (p : Pipeline) (b : Bus)
    → pipeline_status (run w p b).0 ≡ passed
    → (run w p b).0.stage_results ≡ all_results w.around 0 p.stages
unfolding pipeline_status
run-passed w p b h =
    FailFast-passed (run-FailFast w p b) ((aggregate-passed_iff stage_status _).0 h).1
