-- ===== src/Results/Redelivery.antt =====
-- Events that the bus delivers twice to `Store.Record` of internal/results/store.go.
use odyssey_core_agent.Prelude.{
  ◌≡◌, refl, ap, arith, ℕ, String, Bool, true, false, Bool-cases, ◌==◌, eq_refl, ℤ, Option, none,
  some, inl, inr,
}
use odyssey_core_agent.Prelude.Error.{Error, Result, ok, err}
use odyssey_core_agent.Domain.Pipeline.{
  Event, event_pipeline_started, event_pipeline_finished, event_job_started, event_job_finished,
  event_step_started, event_step_finished,
}
use odyssey_core_agent.Results.Tables.{Tables, insert_unless, update_where, is_run, is_job, is_step}
use odyssey_core_agent.Results.Rows.{Faults, execute, run_row, job_row_in, job_row, parsed_at}
use odyssey_core_agent.Results.Statements.{
  no_faults, insert_unless-again, update_where-again, run_row-again, job_row-again, execute-again,
}
use odyssey_core_agent.Results.Store.{
  insert_run, new_run, finished_run, new_job, finished_job, new_step, finished_step,
  record_pipeline_started, record_pipeline_finished, insert_job, record_job_started, update_job,
  record_job_finished, insert_step, record_step_started, update_step, record_step_finished,
  record_event,
}

module _ (stamp : ℕ → String) (faults : Faults) (event : Event) (t : Tables) where
  -- What a call returns and leaves, told by a second call on the tables that it left.
  abbrev Repeats : (Faults → Tables → Option Error × Tables) → Type 0
  Repeats call =
      (call faults t).0 ≡ none → call no_faults (call faults t).1 ≡ (none, (call faults t).1)

  insert_run-again : (empty : Bool) → Repeats (λ f s. insert_run stamp f event s empty)
  unfolding insert_run is_run
  insert_run-again true h = cc
  insert_run-again false h =
      execute-again faults.of_statement _ _
        (λ s. record s {
          runs = insert_unless (is_run event.run_id) (new_run stamp event s) s.runs;
        })
        t h
        (ap (λ rows. record t { runs = rows })
          (insert_unless-again (is_run event.run_id) _ _ t.runs (eq_refl event.run_id)))

  pipeline_started-again : Repeats (λ f s. record_pipeline_started stamp f event s)
  unfolding record_pipeline_started
  pipeline_started-again = insert_run-again (event.run_id == "")

  pipeline_finished-again : Repeats (λ f s. record_pipeline_finished stamp f event s)
  unfolding record_pipeline_finished is_run
  pipeline_finished-again h =
      execute-again faults.of_statement _ _
        (λ s. record s {
          runs = update_where (is_run event.run_id) (finished_run stamp event) s.runs;
        })
        t h
        (ap (λ rows. record t { runs = rows })
          (update_where-again (is_run event.run_id) (finished_run stamp event) t.runs (λ row. refl)
            (λ row. refl)))

  inserted_job-again : (run : ℕ) → Repeats (λ f s. insert_job stamp f event s (ok run))
  unfolding insert_job is_job
  inserted_job-again run h =
      execute-again faults.of_statement _ _
        (λ s. record s {
          jobs = insert_unless (is_job run event.job) (new_job stamp event s run) s.jobs;
        })
        t h
        (ap (λ rows. record t { jobs = rows })
          (insert_unless-again (is_job run event.job) _ _ t.jobs
            (ground (arith, eq_refl event.job))))

  updated_job-again : (run : ℕ) → Repeats (λ f s. update_job stamp f event s (ok run))
  unfolding update_job is_job
  updated_job-again run h =
      execute-again faults.of_statement _ _
        (λ s. record s {
          jobs = update_where (is_job run event.job) (finished_job stamp event) s.jobs;
        })
        t h
        (ap (λ rows. record t { jobs = rows })
          (update_where-again (is_job run event.job) (finished_job stamp event) t.jobs (λ row. refl)
            (λ row. refl)))

  inserted_step-again : (job : ℕ) → Repeats (λ f s. insert_step f event s (ok job))
  unfolding insert_step is_step
  inserted_step-again job h =
      execute-again faults.of_statement _ _
        (λ s. record s {
          steps = insert_unless (is_step job event.step) (new_step event s job) s.steps;
        })
        t h
        (ap (λ rows. record t { steps = rows })
          (insert_unless-again (is_step job event.step) _ _ t.steps
            (ground (arith, eq_refl event.step))))

  updated_step-again :
      (job : ℕ) (code duration : Option ℤ)
      → Repeats (λ f s. update_step f event s (ok job) (ok code) (ok duration))
  unfolding update_step is_step
  updated_step-again job code duration h =
      execute-again faults.of_statement _ _
        (λ s. record s {
          steps = update_where (is_step job event.step) (finished_step event code duration) s.steps;
        })
        t h
        (ap (λ rows. record t { steps = rows })
          (update_where-again (is_step job event.step) (finished_step event code duration) t.steps
            (λ row. refl) (λ row. refl)))

  -- A call that looked up a row finds it again, if what it wrote does not change the look-up.
  after_row :
      (row : Faults → Tables → Result ℕ)
      (write : Faults → Tables → Result ℕ → Option Error × Tables)
      → ((id : ℕ) → row faults t ≡ ok id → row no_faults t ≡ ok id)
      → ((e : Error) → (write faults t (err e)).0 ≡ some e)
      → ((id : ℕ) → row no_faults (write faults t (ok id)).1 ≡ row no_faults t)
      → ((id : ℕ) → Repeats (λ f s. write f s (ok id)))
      → Repeats (λ f s. write f s (row f s))
  after_row row write found failed kept again h = through (row faults t) refl h
    where
      through :
          (r : Result ℕ)
          → row faults t ≡ r
          → (write faults t r).0 ≡ none
          → write no_faults (write faults t r).1 (row no_faults (write faults t r).1)
            ≡ (none, (write faults t r).1)
      through (err e) k q = absurd (both (failed e) q)
        where
          both : (write faults t (err e)).0 ≡ some e → (write faults t (err e)).0 ≡ none → ⊥
          both x y = cc
      through (ok id) k q = simp (kept id, found id k) (again id q)

  runs-execute :
      (fault : Option Error) (wrap : Error → Error) (new : Tables)
      → new.runs ≡ t.runs
      → (execute fault wrap new t).1.runs ≡ t.runs
  unfolding execute
  runs-execute none wrap new h = h
  runs-execute (some e) wrap new h = refl

  jobs-execute :
      (fault : Option Error) (wrap : Error → Error) (new : Tables)
      → new.jobs ≡ t.jobs
      → (execute fault wrap new t).1.jobs ≡ t.jobs
  unfolding execute
  jobs-execute none wrap new h = h
  jobs-execute (some e) wrap new h = refl

  same_run_row :
      (s : Tables)
      → s.runs ≡ t.runs
      → run_row no_faults event.run_id s ≡ run_row no_faults event.run_id t
  unfolding run_row
  same_run_row s h = rw h refl

  same_job_row :
      (s : Tables)
      → s.runs ≡ t.runs
      → s.jobs ≡ t.jobs
      → job_row no_faults event.run_id event.job s ≡ job_row no_faults event.run_id event.job t
  unfolding job_row job_row_in
  same_job_row s h k = rw (same_run_row s h) (same (run_row no_faults event.run_id t))
    where
      same :
          (r : Result ℕ)
          → job_row_in no_faults event.run_id event.job s r
            ≡ job_row_in no_faults event.run_id event.job t r
      same (err e) = refl
      same (ok run) = rw k refl

  job_started-again : Repeats (λ f s. record_job_started stamp f event s)
  unfolding record_job_started insert_job
  job_started-again h =
      after_row (λ f s. run_row f event.run_id s) (λ f s r. insert_job stamp f event s r)
        (λ id k. run_row-again faults event.run_id t k) (λ e. refl)
        (λ id. same_run_row _ (runs-execute faults.of_statement _ _ refl)) inserted_job-again h

  job_finished-again : Repeats (λ f s. record_job_finished stamp f event s)
  unfolding record_job_finished update_job
  job_finished-again h =
      after_row (λ f s. run_row f event.run_id s) (λ f s r. update_job stamp f event s r)
        (λ id k. run_row-again faults event.run_id t k) (λ e. refl)
        (λ id. same_run_row _ (runs-execute faults.of_statement _ _ refl)) updated_job-again h

  step_started-again : Repeats (λ f s. record_step_started f event s)
  unfolding record_step_started insert_step
  step_started-again h =
      after_row (λ f s. job_row f event.run_id event.job s) (λ f s r. insert_step f event s r)
        (λ id k. job_row-again faults event.run_id event.job t k) (λ e. refl)
        (λ id.
          same_job_row _ (runs-execute faults.of_statement _ _ refl)
            (jobs-execute faults.of_statement _ _ refl))
        inserted_step-again h

  unchanged_by_update :
      (id : ℕ) (code duration : Result (Option ℤ))
      → job_row no_faults event.run_id event.job
          (update_step faults event t (ok id) code duration).1
        ≡ job_row no_faults event.run_id event.job t
  unfolding update_step
  unchanged_by_update id (err e) duration = refl
  unchanged_by_update id (ok code) (err e) = refl
  unchanged_by_update id (ok code) (ok duration) =
      same_job_row _ (runs-execute faults.of_statement _ _ refl)
        (jobs-execute faults.of_statement _ _ refl)

  updated-again :
      (id : ℕ) (code duration : Result (Option ℤ))
      → Repeats (λ f s. update_step f event s (ok id) code duration)
  unfolding update_step
  updated-again id (err e) duration h = cc
  updated-again id (ok code) (err e) h = cc
  updated-again id (ok code) (ok duration) h = updated_step-again id code duration h

  step_finished-again : Repeats (λ f s. record_step_finished f event s)
  unfolding record_step_finished update_step
  step_finished-again h =
      let code = parsed_at event "exit_code" in
      let duration = parsed_at event "duration_ms" in
      after_row (λ f s. job_row f event.run_id event.job s)
        (λ f s r. update_step f event s r code duration)
        (λ id k. job_row-again faults event.run_id event.job t k) (λ e. refl)
        (λ id. unchanged_by_update id code duration) (λ id. updated-again id code duration) h

  record_event-again : Repeats (λ f s. record_event stamp f event s)
  unfolding record_event
  record_event-again = (elim (Bool-cases (event.type == event_pipeline_started)) [
    | inl e ↦ rw e pipeline_started-again
    | inr e ↦ rw e (elim (Bool-cases (event.type == event_pipeline_finished)) [
      | inl e ↦ rw e pipeline_finished-again
      | inr e ↦ rw e (elim (Bool-cases (event.type == event_job_started)) [
        | inl e ↦ rw e job_started-again
        | inr e ↦ rw e (elim (Bool-cases (event.type == event_job_finished)) [
          | inl e ↦ rw e job_finished-again
          | inr e ↦ rw e (elim (Bool-cases (event.type == event_step_started)) [
            | inl e ↦ rw e step_started-again
            | inr e ↦ rw e (elim (Bool-cases (event.type == event_step_finished)) [
              | inl e ↦ rw e step_finished-again
              | inr e ↦ rw e (λ h. refl)
            ])
          ])
        ])
      ])
    ])
  ])

-- Redelivery: if recording an event succeeded, then recording it once more, with no fault of the
-- database, succeeds too and changes no table.
pub record_event-redelivered :
    (stamp : ℕ → String) (faults : Faults) (event : Event) (t : Tables)
    → (record_event stamp faults event t).0 ≡ none
    → let after = (record_event stamp faults event t).1 in
      record_event stamp no_faults event after ≡ (none, after)
record_event-redelivered stamp faults event t h = record_event-again stamp faults event t h
