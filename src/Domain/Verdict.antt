-- ===== src/Domain/Verdict.antt =====
-- What the status of a result of internal/domain/result.go says of the jobs and steps below it.
use odyssey_core_agent.Prelude.{
  ◌≡◌, ◌≢◌, refl, ◌⊎◌, inl, inr, ◌↔◌, [], some, none, arith, All, Any, All-iff, Any-iff, iff_trans,
  Option-cases, pos,
}
use odyssey_core_agent.Prelude.Error.{Error}
use odyssey_core_agent.Domain.Status.{passed, errored}
use odyssey_core_agent.Domain.Result.{
  StepResult, JobResult, StageResult, PipelineResult, aggregate, step_status, job_status,
  stage_status, pipeline_status,
}
use odyssey_core_agent.Domain.Worst.{aggregate-passed_iff, aggregate-errored_iff}

-- The step ran and its process exited with code 0.
abbrev pub StepPassed : StepResult → Type 0
StepPassed r = (r.err ≡ none) × (r.exit_code ≡ pos 0)

-- The step hit an infrastructure fault.
abbrev pub StepFaulted : StepResult → Type 0
StepFaulted r = r.err ≢ none

abbrev pub JobPassed : JobResult → Type 0
JobPassed r = (r.setup_err ≡ none) × (r.step_results ≢ []) × All StepPassed r.step_results

abbrev pub JobFaulted : JobResult → Type 0
JobFaulted r = (r.setup_err ≢ none) ⊎ Any StepFaulted r.step_results

abbrev pub StagePassed : StageResult → Type 0
StagePassed r = (r.job_results ≢ []) × All JobPassed r.job_results

abbrev pub StageFaulted : StageResult → Type 0
StageFaulted r = Any JobFaulted r.job_results

step_status-passed_iff : (r : StepResult) → (step_status r ≡ passed) ↔ StepPassed r
unfolding step_status
step_status-passed_iff r = (λ h. ground arith, λ h. ground arith)

step_status-errored_iff : (r : StepResult) → (step_status r ≡ errored) ↔ StepFaulted r
unfolding step_status
step_status-errored_iff r = (λ h. ground arith, λ h. ground arith)

pub job_status_setup_failed :
    (r : JobResult) {e : Error} → r.setup_err ≡ some e → job_status r ≡ errored
unfolding job_status
job_status_setup_failed r h = ground arith

pub job_status_ran :
    (r : JobResult) → r.setup_err ≡ none → job_status r ≡ aggregate step_status r.step_results
unfolding job_status
job_status_ran r h = rw (h, job_status)

pub job_status-passed_iff : (r : JobResult) → (job_status r ≡ passed) ↔ JobPassed r
job_status-passed_iff r =
    let (to, from) = aggregate-passed_iff step_status r.step_results in
    let (each, back) = All-iff step_status-passed_iff r.step_results in
    elim (Option-cases r.setup_err) [
      | inl e ↦
          rw (job_status_ran r e) (λ h. (e, (to h).0, each (to h).1), λ h. from (h.1, back h.2))
      | inr (x, e) ↦ rw (job_status_setup_failed r e) (λ h. cc, λ h. cc)
    ]

job_status-errored_iff : (r : JobResult) → (job_status r ≡ errored) ↔ JobFaulted r
job_status-errored_iff r =
    let steps =
      iff_trans (aggregate-errored_iff step_status r.step_results)
        (Any-iff step_status-errored_iff r.step_results) in
    elim (Option-cases r.setup_err) [
      | inl e ↦
          rw (job_status_ran r e)
            (λ h. inr (steps.0 h), elim [ inl set ↦ absurd (set e) | inr h ↦ steps.1 h ])
      | inr (x, e) ↦ rw (job_status_setup_failed r e) (λ h. inl (λ n. cc), λ h. refl)
    ]

stage_status-passed_iff : (r : StageResult) → (stage_status r ≡ passed) ↔ StagePassed r
unfolding stage_status
stage_status-passed_iff r =
    let (to, from) = aggregate-passed_iff job_status r.job_results in
    let (each, back) = All-iff job_status-passed_iff r.job_results in
    (λ h. ((to h).0, each (to h).1), λ h. from (h.0, back h.1))

stage_status-errored_iff : (r : StageResult) → (stage_status r ≡ errored) ↔ StageFaulted r
unfolding stage_status
stage_status-errored_iff r =
    iff_trans (aggregate-errored_iff job_status r.job_results)
      (Any-iff job_status-errored_iff r.job_results)

-- A pipeline result is passed exactly when it has a stage, every stage has a job, no job failed to
-- set up, every job has a step, and every step exited with code 0 and met no fault.
pub pipeline_status-passed_iff :
    (r : PipelineResult)
    → (pipeline_status r ≡ passed) ↔ ((r.stage_results ≢ []) × All StagePassed r.stage_results)
unfolding pipeline_status
pipeline_status-passed_iff r =
    let (to, from) = aggregate-passed_iff stage_status r.stage_results in
    let (each, back) = All-iff stage_status-passed_iff r.stage_results in
    (λ h. ((to h).0, each (to h).1), λ h. from (h.0, back h.1))

-- A pipeline result is errored exactly when some job failed to set up or some step met a fault.
pub pipeline_status-errored_iff :
    (r : PipelineResult) → (pipeline_status r ≡ errored) ↔ Any StageFaulted r.stage_results
unfolding pipeline_status
pipeline_status-errored_iff r =
    iff_trans (aggregate-errored_iff stage_status r.stage_results)
      (Any-iff stage_status-errored_iff r.stage_results)
