-- ===== src/Results/Failure.antt =====
-- What `Store.Record` of internal/results/store.go leaves when it fails.
use odyssey_core_agent.Prelude.{
  ◌≡◌, refl, ◌⊎◌, inl, inr, Bool-cases, ℕ, String, Bool, true, false, Option, none, some, ℤ, ◌==◌,
}
use odyssey_core_agent.Prelude.Error.{Error, Result, ok, err}
use odyssey_core_agent.Domain.Pipeline.{
  Event, event_pipeline_started, event_pipeline_finished, event_job_started, event_job_finished,
  event_step_started, event_step_finished,
}
use odyssey_core_agent.Results.Tables.{Tables}
use odyssey_core_agent.Results.Rows.{Faults, execute, run_row, job_row, parsed_at}
use odyssey_core_agent.Results.Store.{
  insert_run, record_pipeline_started, record_pipeline_finished, insert_job, record_job_started,
  update_job, record_job_finished, insert_step, record_step_started, update_step,
  record_step_finished, record_event,
}

-- The outcome is a success, or nothing was changed.
abbrev Intact : Tables → Option Error × Tables → Type 0
Intact t out = (out.0 ≡ none) ⊎ (out.1 ≡ t)

execute-Intact :
    (fault : Option Error) (wrap : Error → Error) (new t : Tables)
    → Intact t (execute fault wrap new t)
unfolding execute
execute-Intact none wrap new t = inl refl
execute-Intact (some e) wrap new t = inr refl

module _ (stamp : ℕ → String) (faults : Faults) (event : Event) (t : Tables) where
  insert_run-Intact : (empty : Bool) → Intact t (insert_run stamp faults event t empty)
  unfolding insert_run
  insert_run-Intact true = inr refl
  insert_run-Intact false = execute-Intact faults.of_statement _ _ t

  insert_job-Intact : (r : Result ℕ) → Intact t (insert_job stamp faults event t r)
  unfolding insert_job
  insert_job-Intact (err e) = inr refl
  insert_job-Intact (ok run) = execute-Intact faults.of_statement _ _ t

  update_job-Intact : (r : Result ℕ) → Intact t (update_job stamp faults event t r)
  unfolding update_job
  update_job-Intact (err e) = inr refl
  update_job-Intact (ok run) = execute-Intact faults.of_statement _ _ t

  insert_step-Intact : (r : Result ℕ) → Intact t (insert_step faults event t r)
  unfolding insert_step
  insert_step-Intact (err e) = inr refl
  insert_step-Intact (ok job) = execute-Intact faults.of_statement _ _ t

  update_step-Intact :
      (r : Result ℕ) (code duration : Result (Option ℤ))
      → Intact t (update_step faults event t r code duration)
  unfolding update_step
  update_step-Intact (err e) code duration = inr refl
  update_step-Intact (ok job) (err e) duration = inr refl
  update_step-Intact (ok job) (ok code) (err e) = inr refl
  update_step-Intact (ok job) (ok code) (ok duration) = execute-Intact faults.of_statement _ _ t

  record_event-Intact : Intact t (record_event stamp faults event t)
  unfolding record_event record_pipeline_started record_pipeline_finished record_job_started
      record_job_finished record_step_started record_step_finished
  record_event-Intact =
      let run = run_row faults event.run_id t in
      let job = job_row faults event.run_id event.job t in
      let code = parsed_at event "exit_code" in
      let duration = parsed_at event "duration_ms" in
      (elim (Bool-cases (event.type == event_pipeline_started)) [
        | inl e ↦ rw e (insert_run-Intact (event.run_id == ""))
        | inr e ↦ rw e (elim (Bool-cases (event.type == event_pipeline_finished)) [
          | inl e ↦ rw e (execute-Intact faults.of_statement _ _ t)
          | inr e ↦ rw e (elim (Bool-cases (event.type == event_job_started)) [
            | inl e ↦ rw e (insert_job-Intact run)
            | inr e ↦ rw e (elim (Bool-cases (event.type == event_job_finished)) [
              | inl e ↦ rw e (update_job-Intact run)
              | inr e ↦ rw e (elim (Bool-cases (event.type == event_step_started)) [
                | inl e ↦ rw e (insert_step-Intact job)
                | inr e ↦ rw e (elim (Bool-cases (event.type == event_step_finished)) [
                  | inl e ↦ rw e (update_step-Intact job code duration)
                  | inr e ↦ rw e (inl refl)
                ])
              ])
            ])
          ])
        ])
      ])

  -- If recording an event fails, whatever the event and the fault, no table has changed.
  pub record_event-error :
      {e : Error}
      → (record_event stamp faults event t).0 ≡ some e
      → (record_event stamp faults event t).1 ≡ t
  record_event-error h = elim record_event-Intact [ inl n ↦ cc | inr same ↦ same ]
