-- ===== src/Results/Integrity.antt =====
-- The tables that `Store.Record` of internal/results/store.go leaves obey the schema.
use odyssey_core_agent.Prelude.{
  ◌≡◌, refl, ℕ, String, Bool, true, false, Bool-cases, ◌==◌, Option, ℤ, inl, inr, List, All,
  All-mono,
}
use odyssey_core_agent.Prelude.Error.{Result, ok, err}
use odyssey_core_agent.Domain.Pipeline.{
  Event, event_pipeline_started, event_pipeline_finished, event_job_started, event_job_finished,
  event_step_started, event_step_finished,
}
use odyssey_core_agent.Results.Tables.{RunRow, JobRow, StepRow, Tables, is_run, is_job, is_step}
use odyssey_core_agent.Results.Rows.{Faults, run_row, job_row, parsed_at}
use odyssey_core_agent.Results.Store.{
  new_run, finished_run, new_job, finished_job, new_step, finished_step, insert_run,
  record_pipeline_started, record_pipeline_finished, insert_job, record_job_started, update_job,
  record_job_finished, insert_step, record_step_started, update_step, record_step_finished,
  record_event,
}
use odyssey_core_agent.Results.Keys.{
  Unique, Unique-insert_unless, Unique-update_where, Refers, Refers-insert_unless,
  Refers-update_where, All-insert_unless, All-update_where,
}
use odyssey_core_agent.Results.Schema.{
  same_run, same_job, same_step, IsSound, execute-IsSound, run_row-Refers, job_row-Refers,
}

module _ (stamp : ℕ → String) (faults : Faults) (event : Event) (t : Tables)
    (sound : IsSound t) where
  with_runs :
      (runs : List RunRow)
      → Unique same_run runs
      → ((n : ℕ) → Refers (λ run. run.id) t.runs n → Refers (λ run. run.id) runs n)
      → IsSound (record t { runs = runs })
  with_runs runs u keep = record {
    runs_unique = u;
    jobs_unique = sound.jobs_unique;
    steps_unique = sound.steps_unique;
    jobs_refer = All-mono (λ job h. keep job.run_id h) t.jobs sound.jobs_refer;
    steps_refer = sound.steps_refer;
  }

  with_jobs :
      (jobs : List JobRow)
      → Unique same_job jobs
      → All (λ job. Refers (λ run. run.id) t.runs job.run_id) jobs
      → ((n : ℕ) → Refers (λ job. job.id) t.jobs n → Refers (λ job. job.id) jobs n)
      → IsSound (record t { jobs = jobs })
  with_jobs jobs u refer keep = record {
    runs_unique = sound.runs_unique;
    jobs_unique = u;
    steps_unique = sound.steps_unique;
    jobs_refer = refer;
    steps_refer = All-mono (λ step h. keep step.job_id h) t.steps sound.steps_refer;
  }

  with_steps :
      (steps : List StepRow)
      → Unique same_step steps
      → All (λ step. Refers (λ job. job.id) t.jobs step.job_id) steps
      → IsSound (record t { steps = steps })
  with_steps steps u refer = record {
    runs_unique = sound.runs_unique;
    jobs_unique = sound.jobs_unique;
    steps_unique = u;
    jobs_refer = sound.jobs_refer;
    steps_refer = refer;
  }

  insert_run-IsSound : (empty : Bool) → IsSound (insert_run stamp faults event t empty).1
  unfolding insert_run is_run
  insert_run-IsSound true = sound
  insert_run-IsSound false =
      let test = is_run event.run_id in
      let new = new_run stamp event t in
      execute-IsSound faults.of_statement _ _ t
        (with_runs _ (Unique-insert_unless same_run test new t.runs (λ row. refl) sound.runs_unique)
          (Refers-insert_unless (λ run. run.id) test new t.runs))
        sound

  finished_run-IsSound : IsSound (record_pipeline_finished stamp faults event t).1
  unfolding record_pipeline_finished is_run
  finished_run-IsSound =
      let test = is_run event.run_id in
      let change = finished_run stamp event in
      execute-IsSound faults.of_statement _ _ t
        (with_runs _
          (Unique-update_where same_run test change (λ x y. refl) (λ x y. refl) t.runs
            sound.runs_unique)
          (λ n h. Refers-update_where (λ run. run.id) test change t.runs n (λ row. refl) h))
        sound

  insert_job-IsSound :
      (r : Result ℕ)
      → run_row faults event.run_id t ≡ r
      → IsSound (insert_job stamp faults event t r).1
  unfolding insert_job is_job
  insert_job-IsSound (err e) h = sound
  insert_job-IsSound (ok run) h =
      let test = is_job run event.job in
      let new = new_job stamp event t run in
      execute-IsSound faults.of_statement _ _ t
        (with_jobs _ (Unique-insert_unless same_job test new t.jobs (λ row. refl) sound.jobs_unique)
          (All-insert_unless (λ job. Refers (λ run. run.id) t.runs job.run_id) test new t.jobs
            (run_row-Refers faults event.run_id t h) sound.jobs_refer)
          (Refers-insert_unless (λ job. job.id) test new t.jobs))
        sound

  update_job-IsSound : (r : Result ℕ) → IsSound (update_job stamp faults event t r).1
  unfolding update_job is_job
  update_job-IsSound (err e) = sound
  update_job-IsSound (ok run) =
      let test = is_job run event.job in
      let change = finished_job stamp event in
      execute-IsSound faults.of_statement _ _ t
        (with_jobs _
          (Unique-update_where same_job test change (λ x y. refl) (λ x y. refl) t.jobs
            sound.jobs_unique)
          (All-update_where (λ job. Refers (λ run. run.id) t.runs job.run_id) test change t.jobs
            (λ row h. h) sound.jobs_refer)
          (λ n h. Refers-update_where (λ job. job.id) test change t.jobs n (λ row. refl) h))
        sound

  insert_step-IsSound :
      (r : Result ℕ)
      → job_row faults event.run_id event.job t ≡ r
      → IsSound (insert_step faults event t r).1
  unfolding insert_step is_step
  insert_step-IsSound (err e) h = sound
  insert_step-IsSound (ok job) h =
      let test = is_step job event.step in
      let new = new_step event t job in
      execute-IsSound faults.of_statement _ _ t
        (with_steps _
          (Unique-insert_unless same_step test new t.steps (λ row. refl) sound.steps_unique)
          (All-insert_unless (λ step. Refers (λ job. job.id) t.jobs step.job_id) test new t.steps
            (job_row-Refers faults event.run_id event.job t h) sound.steps_refer))
        sound

  update_step-IsSound :
      (r : Result ℕ) (code duration : Result (Option ℤ))
      → IsSound (update_step faults event t r code duration).1
  unfolding update_step is_step
  update_step-IsSound (err e) code duration = sound
  update_step-IsSound (ok job) (err e) duration = sound
  update_step-IsSound (ok job) (ok code) (err e) = sound
  update_step-IsSound (ok job) (ok code) (ok duration) =
      let test = is_step job event.step in
      let change = finished_step event code duration in
      execute-IsSound faults.of_statement _ _ t
        (with_steps _
          (Unique-update_where same_step test change (λ x y. refl) (λ x y. refl) t.steps
            sound.steps_unique)
          (All-update_where (λ step. Refers (λ job. job.id) t.jobs step.job_id) test change t.steps
            (λ row h. h) sound.steps_refer))
        sound

  -- Recording any event, with any fault, keeps the schema: the run ids of the runs are unique, as are
  -- the names of the jobs of a run and of the steps of a job; every job refers to a run in the
  -- table, and every step to a job.
  pub record_event-IsSound : IsSound (record_event stamp faults event t).1
  unfolding record_event record_pipeline_started record_job_started record_job_finished
      record_step_started record_step_finished
  record_event-IsSound =
      let run = run_row faults event.run_id t in
      let job = job_row faults event.run_id event.job t in
      (elim (Bool-cases (event.type == event_pipeline_started)) [
        | inl e ↦ rw e (insert_run-IsSound (event.run_id == ""))
        | inr e ↦ rw e (elim (Bool-cases (event.type == event_pipeline_finished)) [
          | inl e ↦ rw e (finished_run-IsSound)
          | inr e ↦ rw e (elim (Bool-cases (event.type == event_job_started)) [
            | inl e ↦ rw e (insert_job-IsSound run refl)
            | inr e ↦ rw e (elim (Bool-cases (event.type == event_job_finished)) [
              | inl e ↦ rw e (update_job-IsSound run)
              | inr e ↦ rw e (elim (Bool-cases (event.type == event_step_started)) [
                | inl e ↦ rw e (insert_step-IsSound job refl)
                | inr e ↦ rw e (elim (Bool-cases (event.type == event_step_finished)) [
                  | inl e ↦ rw e (
                      update_step-IsSound job (parsed_at event "exit_code")
                        (parsed_at event "duration_ms"))
                  | inr e ↦ rw e sound
                ])
              ])
            ])
          ])
        ])
      ])
