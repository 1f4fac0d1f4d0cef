-- ===== src/Results/Sequence.antt =====
-- A whole run in the order of its events, for `Store.Record` of internal/results/store.go.
use odyssey_core_agent.Prelude.{
  ℕ, String, true, false, Bool-cases, List, [], ◌∷◌, none, ◌≡◌, ◌≢◌, refl, sym, subst, ◌⊎◌, inl,
  inr, ◌==◌, eq_iff, eq_refl, Any,
}
use odyssey_core_agent.Domain.Pipeline.{
  Event, event_pipeline_started, event_pipeline_finished, event_job_started, event_job_finished,
  event_step_started, event_step_finished,
}
use odyssey_core_agent.Results.Tables.{Tables, is_run}
use odyssey_core_agent.Results.Rows.{payload_at, parsed_at, execute, job_args, step_args}
use odyssey_core_agent.Results.Statements.{no_faults}
use odyssey_core_agent.Results.Selection.{select_id-inserted}
use odyssey_core_agent.Results.Store.{
  new_run, insert_run, record_pipeline_started, record_pipeline_finished, insert_job,
  record_job_started, update_job, record_job_finished, insert_step, record_step_started, bad_number,
  update_step, record_step_finished, record_event,
}
use odyssey_core_agent.Results.Known.{
  Readable, Known, Step, begins, run_ends, job_ends, step_begins, step_ends,
}

-- An event of a job that has begun, or the end of the run.
abbrev pub Expected : List String → Event → Type 0
Expected jobs event =
    (event.type ≡ event_pipeline_finished)
    ⊎ (Any (λ job. job ≡ event.job) jobs
        × ((event.type ≡ event_job_finished)
            ⊎ (event.type ≡ event_step_started)
            ⊎ ((event.type ≡ event_step_finished) × Readable event)))

-- The events of a run behind its start, where these jobs have begun: every job begins before the
-- other events of the job.
abbrev pub InOrder : String → List String → List Event → Type 0
InOrder run jobs [] = Unit
InOrder run jobs (event ∷ events) =
    (event.run_id ≡ run)
    × (((event.type ≡ event_job_started) × InOrder run (event.job ∷ jobs) events)
        ⊎ (Expected jobs event × InOrder run jobs events))

-- Recorded one behind the other, none is refused.
abbrev pub AllRecorded : (ℕ → String) → List Event → Tables → Type 0
AllRecorded stamp [] t = Unit
AllRecorded stamp (event ∷ events) t =
    ((record_event stamp no_faults event t).0 ≡ none)
    × AllRecorded stamp events (record_event stamp no_faults event t).1

module _ (stamp : ℕ → String) where
  module _ (event : Event) (id : ℕ) (jobs : List String) (t : Tables)
      (known : Known event.run_id id jobs t) where
    begins_recorded :
        event.type ≡ event_job_started
        → Step event.run_id id (event.job ∷ jobs) (record_event stamp no_faults event t)
    unfolding record_event record_job_started insert_job job_args payload_at
    begins_recorded h = rw h (begins stamp event id jobs t known)

    expected_recorded :
        Expected jobs event → Step event.run_id id jobs (record_event stamp no_faults event t)
    unfolding record_event record_pipeline_finished payload_at record_job_finished update_job
        job_args record_step_started insert_step step_args record_step_finished parsed_at
        update_step bad_number
    expected_recorded (inl h) = rw h (run_ends stamp event id jobs t known)
    expected_recorded (inr (begun, inl h)) = rw h (job_ends stamp event id jobs t known)
    expected_recorded (inr (begun, inr (inl h))) =
        rw h (step_begins stamp event id jobs t known begun)
    expected_recorded (inr (begun, inr (inr (h, readable)))) =
        rw h (step_ends stamp event id jobs t known begun readable)

  rest_recorded :
      (run : String) (id : ℕ) (jobs : List String) (events : List Event) (t : Tables)
      → Known run id jobs t
      → InOrder run jobs events
      → AllRecorded stamp events t
  rest_recorded run id jobs [] t known h = tt
  rest_recorded run id jobs (event ∷ events) t known (same, inl (h, rest)) =
      let here = subst (λ r. Known r id jobs t) (sym same) known in
      let (recorded, after) = begins_recorded event id jobs t here h in
      (
        recorded,
        rest_recorded run id (event.job ∷ jobs) events _
            (subst (λ r. Known r id (event.job ∷ jobs) (record_event stamp no_faults event t).1)
              same after)
            rest,
      )
  rest_recorded run id jobs (event ∷ events) t known (same, inr (h, rest)) =
      let here = subst (λ r. Known r id jobs t) (sym same) known in
      let (recorded, after) = expected_recorded event id jobs t here h in
      (
        recorded,
        rest_recorded run id jobs events _
            (subst (λ r. Known r id jobs (record_event stamp no_faults event t).1) same after) rest,
      )

  starts :
      (event : Event) (t : Tables)
      → (event.run_id == "") ≡ false
      → (id : ℕ) × Step event.run_id id [] (record_pipeline_started stamp no_faults event t)
  unfolding record_pipeline_started insert_run execute is_run
  starts event t h =
      let new = new_run stamp event t in
      let fits : is_run event.run_id new ≡ true = eq_refl event.run_id in
      let (id, found) = select_id-inserted (λ row. row.id) (is_run event.run_id) new t.runs fits in
      (id, rw h (refl, record { run_at = found; jobs_at = tt }))

  start_recorded :
      (event : Event) (t : Tables)
      → event.type ≡ event_pipeline_started
      → (event.run_id == "") ≡ false
      → (id : ℕ) × Step event.run_id id [] (record_event stamp no_faults event t)
  unfolding record_event record_pipeline_started insert_run starts
  start_recorded event t h set = let (id, step) = starts event t set in (id, rw h step)

  -- If no query and no statement fails, the recorder accepts all events of a run in their order, whatever
  -- is in the tables: the start of the run, with a run id that all others carry, and then for each job
  -- its start before its end and the events of its steps, whose numbers can be read, and the end of the
  -- run.
  pub record_event-InOrder :
      (start : Event) (events : List Event) (t : Tables)
      → start.type ≡ event_pipeline_started
      → start.run_id ≢ ""
      → InOrder start.run_id [] events
      → AllRecorded stamp (start ∷ events) t
  record_event-InOrder start events t h set rest =
      let (id, (recorded, known)) = start_recorded start t h (not_empty start.run_id set) in
      (recorded, rest_recorded start.run_id id [] events _ known rest)
    where
      not_empty : (run : String) → run ≢ "" → (run == "") ≡ false
      not_empty run set = elim (Bool-cases (run == "")) [
        | inl e ↦ absurd (set ((eq_iff run "").0 e))
        | inr e ↦ e
      ]
