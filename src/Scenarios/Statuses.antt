-- ===== src/Scenarios/Statuses.antt =====
-- Results of a pipeline of one stage and two jobs, for internal/domain/result.go.
use mathlib.Core.List.{Permᴰ}
use odyssey_core_agent.Prelude.{
  ◌≤◌, ◌<◌, ◌/◌, ◌^◌, [], ◌∷◌, Option, some, none, ℤ, pos, negsuc, ◌≡◌, ◌≢◌, ◌↔◌, refl, arith, All,
  Any,
}
use odyssey_core_agent.Prelude.Decimal.{format_int}
use odyssey_core_agent.Prelude.Error.{Error, canceled}
use odyssey_core_agent.Domain.Status.{passed, errored, status_rank}
use odyssey_core_agent.Domain.Duration.{milliseconds}
use odyssey_core_agent.Domain.Result.{
  StepResult, JobResult, PipelineResult, aggregate, pipeline_status, job_status, job_duration,
  step_status,
}
use odyssey_core_agent.Domain.Worst.{aggregate-perm, aggregate-greatest}
use odyssey_core_agent.Server.Messages.{step_message}
use odyssey_core_agent.Server.Tree.{Fits32, exit_code-step_message}
use odyssey_core_agent.Domain.Verdict.{
  StagePassed, StageFaulted, pipeline_status-passed_iff, pipeline_status-errored_iff,
}
use odyssey_core_agent.Domain.Elapsed.{total_time, job_duration-exact}

abbrev step_of : ℤ → Option Error → StepResult
step_of code e = record {
  step_name = "make";
  stdout = "";
  stderr = "";
  exit_code = code;
  duration = 1500000;
  err = e;
}

abbrev good : JobResult
good = record {
  job_name = "build";
  step_results = step_of (pos 0) none ∷ step_of (pos 0) none ∷ [];
  setup_err = none;
}

abbrev cut_off : JobResult
cut_off = record {
  job_name = "lint";
  step_results = step_of (negsuc 0) (some canceled) ∷ [];
  setup_err = none;
}

abbrev pub mixed : PipelineResult
mixed = record {
  run_id = "run-1";
  duration = 0;
  pipeline_name = "demo";
  stage_results =
      record { stage_name = "check"; job_results = good ∷ cut_off ∷ []; duration = 0 } ∷ [];
}

short_enough : total_time good.step_results < 2 ^ 63
short_enough = omega arith

pipeline_status-passed_iff_example :
    (pipeline_status mixed ≡ passed)
    ↔ ((mixed.stage_results ≢ []) × All StagePassed mixed.stage_results)
pipeline_status-passed_iff_example = pipeline_status-passed_iff mixed

pipeline_status-errored_iff_example :
    (pipeline_status mixed ≡ errored) ↔ Any StageFaulted mixed.stage_results
pipeline_status-errored_iff_example = pipeline_status-errored_iff mixed

two_swapped : Permᴰ (good ∷ cut_off ∷ []) (cut_off ∷ good ∷ [])
two_swapped = Permᴰ.swap {l = []} refl refl

aggregate-perm_example :
    aggregate job_status (good ∷ cut_off ∷ []) ≡ aggregate job_status (cut_off ∷ good ∷ [])
aggregate-perm_example = aggregate-perm job_status two_swapped

two_steps : (step_of (pos 0) none ∷ step_of (pos 2) none ∷ []) ≢ []
two_steps = λ e. cc

aggregate-greatest_example :
    All
      (λ x.
        status_rank (step_status x)
        ≤ status_rank (aggregate step_status (step_of (pos 0) none ∷ step_of (pos 2) none ∷ [])))
      (step_of (pos 0) none ∷ step_of (pos 2) none ∷ [])
    × Any
        (λ x.
          step_status x ≡ aggregate step_status (step_of (pos 0) none ∷ step_of (pos 2) none ∷ []))
        (step_of (pos 0) none ∷ step_of (pos 2) none ∷ [])
aggregate-greatest_example =
    aggregate-greatest step_status (step_of (pos 0) none ∷ step_of (pos 2) none ∷ []) two_steps

job_duration-exact_example :
    (job_duration good ≡ total_time good.step_results)
    × (milliseconds (job_duration good) ≡ pos (total_time good.step_results / 1000000))
job_duration-exact_example = job_duration-exact good short_enough

printed_duration : format_int (milliseconds 1500000) ≡ "1"
unfolding format_int milliseconds
printed_duration = refl

printed_exit_code : format_int (negsuc 136) ≡ "-137"
unfolding format_int
printed_exit_code = refl

exit_code-step_message_example :
    ((step_message (λ e. "error") (step_of (pos 2) none)).exit_code
      ≡ (step_of (pos 2) none).exit_code)
    ↔ Fits32 (step_of (pos 2) none).exit_code
exit_code-step_message_example = exit_code-step_message (λ e. "error") (step_of (pos 2) none)
