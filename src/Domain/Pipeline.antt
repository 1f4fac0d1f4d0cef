-- ===== src/Domain/Pipeline.antt =====
-- internal/domain/pipeline.go and internal/domain/event.go: what is run, and what is told of a run.
use odyssey_core_agent.Prelude.{ℕ, String, List, ℤ, Map}

pub record Step : Type 0 where
  pub name : String
  pub run : String
  pub timeout : ℤ

pub record Job : Type 0 where
  pub name : String
  pub image : String
  pub setup : List String
  pub steps : List Step
  pub env : Map String

pub record Stage : Type 0 where
  pub name : String
  pub jobs : List Job

pub record Pipeline : Type 0 where
  pub name : String
  pub stages : List Stage

abbrev pub event_pipeline_started : String
event_pipeline_started = "pipeline.started"

abbrev pub event_pipeline_finished : String
event_pipeline_finished = "pipeline.finished"

abbrev pub event_job_started : String
event_job_started = "job.started"

abbrev pub event_job_finished : String
event_job_finished = "job.finished"

abbrev pub event_step_started : String
event_step_started = "step.started"

abbrev pub event_step_finished : String
event_step_finished = "step.finished"

-- `occurred_at` is the instant in nanoseconds; `type` is `Type`. Absent texts are empty.
pub record Event : Type 0 where
  pub type : String
  pub occurred_at : ℕ
  pub run_id : String
  pub pipeline : String
  pub job : String
  pub step : String
  pub payload : Map String
