-- ===== src/Domain/Elapsed.antt =====
-- The wall time of a job: `JobResult.Duration` of internal/domain/result.go.
use odyssey_core_agent.Prelude.{pos, ℕ, ◌+◌, ◌/◌, ◌^◌, ◌<◌, ◌≡◌, List, [], ◌∷◌, arith}
use odyssey_core_agent.Domain.Duration.{add64, milliseconds}
use odyssey_core_agent.Domain.Result.{StepResult, JobResult, sum_durations, job_duration}

-- The steps' durations added up with no bound.
abbrev pub total_time : List StepResult → ℕ
total_time [] = 0
total_time (r ∷ rs) = r.duration + total_time rs

add64-exact : (a b : ℕ) → a + b < 2 ^ 63 → add64 a b ≡ a + b
unfolding add64
add64-exact a b h = omega arith

sum_durations-exact :
    (total : ℕ) (rs : List StepResult)
    → total + total_time rs < 2 ^ 63
    → sum_durations total rs ≡ total + total_time rs
unfolding sum_durations
sum_durations-exact total [] h = omega arith
sum_durations-exact total (r ∷ rs) h =
    omega (arith, sum_durations-exact (add64 total r.duration) rs, add64-exact total r.duration)

-- While the steps' durations add up to less than 2 ^ 63 ns, the job's duration is their exact sum,
-- and its milliseconds are that sum divided by a million: nothing wrapped around.
pub job_duration-exact :
    (r : JobResult)
    → total_time r.step_results < 2 ^ 63
    → (job_duration r ≡ total_time r.step_results)
      × (milliseconds (job_duration r) ≡ pos (total_time r.step_results / 1000000))
unfolding job_duration milliseconds
job_duration-exact r h = ground (arith, sum_durations-exact 0 r.step_results)
