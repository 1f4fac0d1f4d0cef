-- ===== src/Config/Validity.antt =====
-- The valid configurations of internal/config/models.go, described without the code's maps and loops.
use odyssey_core_agent.Prelude.{String, false, List, [], ◌∷◌, ◌≡◌, ◌≢◌, is_negative, All, Any}
use odyssey_core_agent.Config.Models.{StepConfig, JobConfig, RootConfig}

-- The text is one of the list.
abbrev pub In : String → List String → Type 0
In s = Any (λ t. t ≡ s)

-- No text stands twice.
abbrev pub Distinct : List String → Type 0
Distinct [] = Unit
Distinct (s ∷ ss) = ¬ In s ss × Distinct ss

pub record StepIsValid (step : StepConfig) : Type 0 where
  pub has_name : step.name ≢ ""
  pub has_run : step.run ≢ ""
  pub timeout_not_negative : is_negative step.timeout ≡ false

pub record JobIsValid (stages : List String) (job : JobConfig) : Type 0 where
  pub has_stage : job.stage ≢ ""
  pub stage_declared : In job.stage stages
  pub has_image : job.image ≢ ""
  pub has_steps : job.steps ≢ []
  pub steps_valid : All StepIsValid job.steps

pub record IsValid (root : RootConfig) : Type 0 where
  pub has_stages : root.pipeline.stages ≢ []
  pub stages_distinct : Distinct root.pipeline.stages
  pub has_jobs : root.jobs ≢ []
  pub jobs_valid : All (λ entry. JobIsValid root.pipeline.stages entry.1) root.jobs
  pub stages_used :
      All (λ stage. Any (λ entry. entry.1.stage ≡ stage) root.jobs) root.pipeline.stages
