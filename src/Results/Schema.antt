-- ===== src/Results/Schema.antt =====
-- The schema that the tables of internal/results/store.go obey.
use odyssey_core_agent.Prelude.{◌≡◌, ℕ, String, Bool, ◌&&◌, nat_eq, ◌==◌, Option, none, some, All}
use odyssey_core_agent.Prelude.Error.{Error, Result, ok, err}
use odyssey_core_agent.Results.Tables.{RunRow, JobRow, StepRow, Tables, is_run, is_job}
use odyssey_core_agent.Results.Rows.{Faults, execute, found_row, run_row, job_row_in, job_row}
use odyssey_core_agent.Results.Keys.{Unique, Refers, Refers-select_id}

abbrev pub same_run : RunRow → RunRow → Bool
same_run r s = r.run_id == s.run_id

abbrev pub same_job : JobRow → JobRow → Bool
same_job i j = nat_eq i.run_id j.run_id && (i.name == j.name)

abbrev pub same_step : StepRow → StepRow → Bool
same_step r s = nat_eq r.job_id s.job_id && (r.name == s.name)

-- The schema: the keys of each table are unique, every job refers to a run, and every step to a job.
pub record IsSound (t : Tables) : Type 0 where
  pub runs_unique : Unique same_run t.runs
  pub jobs_unique : Unique same_job t.jobs
  pub steps_unique : Unique same_step t.steps
  pub jobs_refer : All (λ job. Refers (λ run. run.id) t.runs job.run_id) t.jobs
  pub steps_refer : All (λ step. Refers (λ job. job.id) t.jobs step.job_id) t.steps

pub execute-IsSound :
    (fault : Option Error) (wrap : Error → Error) (new t : Tables)
    → IsSound new
    → IsSound t
    → IsSound (execute fault wrap new t).1
unfolding execute
execute-IsSound none wrap new t h k = h
execute-IsSound (some e) wrap new t h k = k

found_row-some :
    (fault : Option Error) (missing : Error) (row : Option ℕ) {id : ℕ}
    → found_row fault missing row ≡ ok id
    → row ≡ some id
unfolding found_row
found_row-some none missing none h = cc
found_row-some none missing (some n) h = cc
found_row-some (some e) missing row h = cc

pub run_row-Refers :
    (faults : Faults) (run_id : String) (t : Tables) {id : ℕ}
    → run_row faults run_id t ≡ ok id
    → Refers (λ run. run.id) t.runs id
unfolding run_row
run_row-Refers faults run_id t h =
    Refers-select_id (λ run. run.id) (is_run run_id) t.runs (found_row-some _ _ _ h)

pub job_row-Refers :
    (faults : Faults) (run_id job : String) (t : Tables) {id : ℕ}
    → job_row faults run_id job t ≡ ok id
    → Refers (λ job. job.id) t.jobs id
unfolding job_row job_row_in
job_row-Refers faults run_id job t {id = id} h = through (run_row faults run_id t) h
  where
    through :
        (r : Result ℕ) → job_row_in faults run_id job t r ≡ ok id → Refers (λ job. job.id) t.jobs id
    through (err e) h = cc
    through (ok run) h =
        Refers-select_id (λ job. job.id) (is_job run job) t.jobs (found_row-some _ _ _ h)
