-- ===== src/Server/Messages.antt =====
-- internal/server/mapping.go: the result of a run as the messages of the gRPC API.
use odyssey_core_agent.Prelude.{
  ℕ, ◌-◌, ◌%◌, ◌^◌, String, List, map, Option, none, some, ℤ, pos, negsuc, ltb, if◌then◌else◌,
}
use odyssey_core_agent.Prelude.Error.{Error}
use odyssey_core_agent.Domain.Duration.{neg, milliseconds}
use odyssey_core_agent.Domain.Status.{
  Status, unknown, pending, running, passed, failed, skipped, errored,
}
use odyssey_core_agent.Domain.Result.{
  StepResult, JobResult, StageResult, PipelineResult, step_status, job_status, job_duration,
  stage_status, pipeline_status,
}

-- `odysseyv1.Status`
pub data StatusMessage : Type 0 where
  status_unspecified status_pending status_running status_passed : StatusMessage
  status_failed status_errored status_skipped : StatusMessage

-- `odysseyv1.StepResult`
pub record StepMessage : Type 0 where
  pub step_name : String
  pub stdout : String
  pub stderr : String
  pub exit_code : ℤ
  pub status : StatusMessage
  pub duration_ms : ℤ
  pub error : String

-- `odysseyv1.JobResult`
pub record JobMessage : Type 0 where
  pub job_name : String
  pub status : StatusMessage
  pub step_results : List StepMessage
  pub duration_ms : ℤ
  pub error : String

-- `odysseyv1.StageResult`
pub record StageMessage : Type 0 where
  pub stage_name : String
  pub status : StatusMessage
  pub job_results : List JobMessage
  pub duration_ms : ℤ

-- `odysseyv1.RunPipelineResponse`
pub record Response : Type 0 where
  pub pipeline_name : String
  pub status : StatusMessage
  pub stage_results : List StageMessage
  pub duration_ms : ℤ

-- `domainStatusToProto`
unfoldable pub status_message : Status → StatusMessage
status_message passed = status_passed
status_message failed = status_failed
status_message errored = status_errored
status_message pending = status_pending
status_message running = status_running
status_message skipped = status_skipped
status_message unknown = status_unspecified

-- The signed number of a pattern of 32 bits.
unfoldable pub signed32 : ℕ → ℤ
signed32 bits = if ltb bits (2 ^ 31) then pos bits else neg (2 ^ 32 - bits)

-- `int32(n)` keeps the lowest 32 bits.
unfoldable pub int32 : ℤ → ℤ
unfolding signed32
int32 (pos n) = signed32 (n % 2 ^ 32)
int32 (negsuc n) = signed32 (2 ^ 32 - 1 - n % 2 ^ 32)

-- `err.Error()`, or no text; how an error is rendered is a parameter.
unfoldable pub fault_text : (Error → String) → Option Error → String
fault_text render none = ""
fault_text render (some e) = render e

module _ (render : Error → String) where
  -- `domainStepResultToProto`
  unfoldable pub step_message : StepResult → StepMessage
  unfolding status_message int32 fault_text step_status milliseconds
  step_message r = record {
    step_name = r.step_name;
    stdout = r.stdout;
    stderr = r.stderr;
    exit_code = int32 r.exit_code;
    status = status_message (step_status r);
    duration_ms = milliseconds r.duration;
    error = fault_text render r.err;
  }

  -- `domainJobResultToProto`
  unfoldable pub job_message : JobResult → JobMessage
  unfolding status_message fault_text step_message job_status job_duration milliseconds
  job_message r = record {
    job_name = r.job_name;
    status = status_message (job_status r);
    step_results = map step_message r.step_results;
    duration_ms = milliseconds (job_duration r);
    error = fault_text render r.setup_err;
  }

  -- `domainStageResultToProto`
  unfoldable pub stage_message : StageResult → StageMessage
  unfolding status_message job_message stage_status milliseconds
  stage_message r = record {
    stage_name = r.stage_name;
    status = status_message (stage_status r);
    job_results = map job_message r.job_results;
    duration_ms = milliseconds r.duration;
  }

  -- `domainPipelineResultToProto`
  unfoldable pub response_of : PipelineResult → Response
  unfolding status_message stage_message pipeline_status milliseconds
  response_of r = record {
    pipeline_name = r.pipeline_name;
    status = status_message (pipeline_status r);
    stage_results = map stage_message r.stage_results;
    duration_ms = milliseconds r.duration;
  }
