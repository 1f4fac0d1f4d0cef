-- ===== src/Results/Known.antt =====
-- What `Store.Record` of internal/results/store.go leaves of the rows that later events refer to.
use odyssey_core_agent.Prelude.{
  ℕ, String, true, List, ◌∷◌, Option, none, some, ℤ, ◌≡◌, refl, ◌∙◌, ap, subst, eq_refl, All, Any,
  All-mono, Any-All, nat_eq_iff,
}
use odyssey_core_agent.Prelude.Error.{Error, ok}
use odyssey_core_agent.Domain.Pipeline.{Event}
use odyssey_core_agent.Results.Tables.{StepRow, Tables, select_id, is_run, is_job}
use odyssey_core_agent.Results.Rows.{parsed_at, execute, found_row, run_row, job_row_in, job_row}
use odyssey_core_agent.Results.Statements.{no_faults}
use odyssey_core_agent.Results.Selection.{
  select_id-update_where, select_id-insert_unless, select_id-inserted,
}
use odyssey_core_agent.Results.Store.{
  finished_run, new_job, finished_job, record_pipeline_finished, insert_job, record_job_started,
  update_job, record_job_finished, insert_step, record_step_started, update_step,
  record_step_finished,
}

-- The payload's numbers can be read.
abbrev pub Readable : Event → Type 0
Readable event =
    ((code : Option ℤ) × (parsed_at event "exit_code" ≡ ok code))
    × ((duration : Option ℤ) × (parsed_at event "duration_ms" ≡ ok duration))

-- The run has its row, and so have these jobs of it.
pub record Known (run : String) (id : ℕ) (jobs : List String) (t : Tables) : Type 0 where
  pub run_at : select_id (λ row. row.id) (is_run run) t.runs ≡ some id
  pub jobs_at :
      All (λ job. (i : ℕ) × (select_id (λ row. row.id) (is_job id job) t.jobs ≡ some i)) jobs

-- An event that is recorded, and what is known then.
abbrev pub Step : String → ℕ → List String → Option Error × Tables → Type 0
Step run id jobs answer = (answer.0 ≡ none) × Known run id jobs answer.1

run_row-Known :
    {run : String} {id : ℕ} {jobs : List String} {t : Tables}
    → Known run id jobs t
    → run_row no_faults run t ≡ ok id
unfolding run_row found_row
run_row-Known known = rw known.run_at refl

job_row_in-found :
    (run job : String) (id i : ℕ) (t : Tables)
    → select_id (λ row. row.id) (is_job id job) t.jobs ≡ some i
    → job_row_in no_faults run job t (ok id) ≡ ok i
unfolding job_row_in found_row
job_row_in-found run job id i t h = rw h refl

job_row-found :
    (run job : String) (id i : ℕ) (t : Tables)
    → run_row no_faults run t ≡ ok id
    → select_id (λ row. row.id) (is_job id job) t.jobs ≡ some i
    → job_row no_faults run job t ≡ ok i
unfolding job_row
job_row-found run job id i t h k =
    ap (job_row_in no_faults run job t) h ∙ job_row_in-found run job id i t k

job_row-Known :
    (run : String) (id : ℕ) (jobs : List String) (t : Tables) (job : String)
    → Known run id jobs t
    → Any (λ j. j ≡ job) jobs
    → (i : ℕ) × (job_row no_faults run job t ≡ ok i)
job_row-Known run id jobs t job known h =
    Any-All
      (λ j (e : j ≡ job)
          (found : (i : ℕ) × (select_id (λ row. row.id) (is_job id j) t.jobs ≡ some i)).
        (
          found.0,
          job_row-found run job id found.0 t (run_row-Known known) (
              subst (λ n. select_id (λ row. row.id) (is_job id n) t.jobs ≡ some found.0) e found.1),
        ))
      jobs h known.jobs_at

-- The tables whose jobs are found where they were.
kept :
    (run : String) (id : ℕ) (jobs : List String) (t u : Tables)
    → select_id (λ row. row.id) (is_run run) u.runs ≡ select_id (λ row. row.id) (is_run run) t.runs
    → ((job : String) (i : ℕ)
        → select_id (λ row. row.id) (is_job id job) t.jobs ≡ some i
        → select_id (λ row. row.id) (is_job id job) u.jobs ≡ some i)
    → Known run id jobs t
    → Known run id jobs u
kept run id jobs t u h k known = record {
  run_at = h ∙ known.run_at;
  jobs_at = All-mono (λ job found. (found.0, k job found.0 found.1)) jobs known.jobs_at;
}

module _ (stamp : ℕ → String) (event : Event) (id : ℕ) (jobs : List String) (t : Tables)
    (known : Known event.run_id id jobs t) where
  inserted : Step event.run_id id (event.job ∷ jobs) (insert_job stamp no_faults event t (ok id))
  unfolding insert_job execute is_job
  inserted =
      let new = new_job stamp event t id in
      let same_run = (nat_eq_iff id id).1 refl in
      let same_job = eq_refl event.job in
      let fits : is_job id event.job new ≡ true = rw (same_run, same_job) refl in
      (
        refl,
        record {
          run_at = known.run_at;
          jobs_at = (
            select_id-inserted (λ row. row.id) (is_job id event.job) new t.jobs fits,
            All-mono
                (λ job found. (
                  found.0,
                  select_id-insert_unless (λ row. row.id) (is_job id job) (is_job id event.job) new
                      t.jobs {i = found.0} found.1,
                ))
                jobs known.jobs_at,
          );
        },
      )

  pub begins : Step event.run_id id (event.job ∷ jobs) (record_job_started stamp no_faults event t)
  unfolding record_job_started
  begins = rw (run_row-Known known) inserted

  pub run_ends : Step event.run_id id jobs (record_pipeline_finished stamp no_faults event t)
  unfolding record_pipeline_finished execute is_run
  run_ends = (
    refl,
    kept event.run_id id jobs t _
        (select_id-update_where (λ row. row.id) (is_run event.run_id) (is_run event.run_id)
          (finished_run stamp event) (λ row. refl) (λ row. refl) t.runs)
        (λ job i h. h) known,
  )

  updated : Step event.run_id id jobs (update_job stamp no_faults event t (ok id))
  unfolding update_job execute is_job
  updated = (
    refl,
    kept event.run_id id jobs t _ refl
        (λ job i h.
          select_id-update_where (λ row. row.id) (is_job id job) (is_job id event.job)
            (finished_job stamp event) (λ row. refl) (λ row. refl) t.jobs
          ∙ h)
        known,
  )

  pub job_ends : Step event.run_id id jobs (record_job_finished stamp no_faults event t)
  unfolding record_job_finished
  job_ends = rw (run_row-Known known) updated

  -- A statement on the steps leaves the runs and the jobs.
  same_rows : (steps : List StepRow) → Known event.run_id id jobs (record t { steps = steps })
  same_rows steps = kept event.run_id id jobs t _ refl (λ job i h. h) known

  module _ (begun : Any (λ job. job ≡ event.job) jobs) where
    pub step_begins : Step event.run_id id jobs (record_step_started no_faults event t)
    unfolding record_step_started insert_step execute
    step_begins =
        let (i, found) = job_row-Known event.run_id id jobs t event.job known begun in
        rw found (refl, same_rows _)

    pub step_ends :
        Readable event → Step event.run_id id jobs (record_step_finished no_faults event t)
    unfolding record_step_finished update_step execute
    step_ends ((code, code_read), (duration, duration_read)) =
        let (i, found) = job_row-Known event.run_id id jobs t event.job known begun in
        rw (found, code_read, duration_read) (refl, same_rows _)
