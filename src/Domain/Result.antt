-- ===== src/Domain/Result.antt =====
-- internal/domain/result.go: the result tree and how statuses aggregate in it.
use odyssey_core_agent.Prelude.{String, Option, none, some, List, [], ◌∷◌, int_eq, if◌then◌else◌}
use odyssey_core_agent.Prelude.Error.{Error}
use odyssey_core_agent.Domain.Duration.{Duration, add64}
use odyssey_core_agent.Domain.Status.{
  Status, pending, passed, failed, errored, ExitCode, exit_success, worst_status,
}

pub record StepResult : Type 0 where
  pub step_name : String
  pub stdout : String
  pub stderr : String
  pub exit_code : ExitCode
  pub duration : Duration
  pub err : Option Error

unfoldable pub step_status : StepResult → Status
step_status r = elim r.err [
  | some e ↦ errored
  | none ↦ if int_eq r.exit_code exit_success then passed else failed
]

pub record JobResult : Type 0 where
  pub job_name : String
  pub step_results : List StepResult
  pub setup_err : Option Error

-- `for _, r := range rs { worst = worstStatus(worst, r.Status()) }`
unfoldable pub worst_among {ℓ} : {A : Type ℓ} → (A → Status) → Status → List A → Status
unfolding worst_status
worst_among status worst [] = worst
worst_among status worst (r ∷ rs) = worst_among status (worst_status worst (status r)) rs

-- What the `Status` methods do with their list: pending if it is empty, else its worst status.
unfoldable pub aggregate {ℓ} : {A : Type ℓ} → (A → Status) → List A → Status
unfolding worst_among
aggregate status [] = pending
aggregate status (r ∷ rs) = worst_among status passed (r ∷ rs)

unfoldable pub job_status : JobResult → Status
unfolding aggregate step_status
job_status r = elim r.setup_err [ some e ↦ errored | none ↦ aggregate step_status r.step_results ]

-- `jobDuration += sr.Duration` over the steps
unfoldable pub sum_durations : Duration → List StepResult → Duration
unfolding add64
sum_durations total [] = total
sum_durations total (r ∷ rs) = sum_durations (add64 total r.duration) rs

unfoldable pub job_duration : JobResult → Duration
unfolding sum_durations
job_duration r = sum_durations 0 r.step_results

pub record StageResult : Type 0 where
  pub stage_name : String
  pub job_results : List JobResult
  pub duration : Duration

unfoldable pub stage_status : StageResult → Status
unfolding aggregate job_status
stage_status r = aggregate job_status r.job_results

pub record PipelineResult : Type 0 where
  pub run_id : String
  pub duration : Duration
  pub pipeline_name : String
  pub stage_results : List StageResult

unfoldable pub pipeline_status : PipelineResult → Status
unfolding aggregate stage_status
pipeline_status r = aggregate stage_status r.stage_results
