-- ===== src/Runner/Verdict.antt =====
-- What `DockerRunner.Run` of internal/runner/docker.go returns: the result, its status and the error.
use odyssey_core_agent.Prelude.{
  String, List, [], map, Option, none, some, ◌≡◌, ◌≢◌, refl, sym, ◌∙◌, ap, ◌⊎◌, inl, inr, arith,
  All, Any, Any-elim, Any-All, Any-ne-nil, Any-append, Option-cases, subst,
}
use odyssey_core_agent.Prelude.Error.{Error, Result, ok, err}
use odyssey_core_agent.Domain.Status.{Status, passed, failed, errored}
use odyssey_core_agent.Domain.Result.{StepResult, JobResult, step_status, aggregate, job_status}
use odyssey_core_agent.Domain.Worst.{aggregate-greatest, aggregate-passed_iff}
use odyssey_core_agent.Domain.Verdict.{
  StepPassed, job_status-passed_iff, job_status_ran, job_status_setup_failed,
}
use odyssey_core_agent.Domain.Pipeline.{Job}
use odyssey_core_agent.Runner.Docker.{Docker}
use odyssey_core_agent.Runner.Session.{StepSink, Session}
use odyssey_core_agent.Runner.Steps.{Round}
use odyssey_core_agent.Runner.Job.{
  setup_failed, ran, after_setup, after_start, after_pull, run_in_container, run_created, run_job,
}
use odyssey_core_agent.Runner.Endings.{Broke-not_passed}
use odyssey_core_agent.Runner.Outcome.{HasRun, finished, broke_off, run_steps-HasRun}

-- A job was not set up, or its steps ran.
pub data JobOutcome (job : Job) (out : JobResult × Option Error) : Type 0 where
  not_set_up : (e : Error) → out ≡ setup_failed job e → JobOutcome job out
  steps_ran : (r : Round) → out ≡ ran job r → HasRun job.steps r → JobOutcome job out

module _ {d : Docker} (sink : StepSink d) (job : Job) where
  after_setup-outcome :
      (id : String) (e : Option Error) (s : Session d)
      → JobOutcome job (after_setup sink job id e s).0
  unfolding after_setup
  after_setup-outcome id (some e) s = not_set_up _ refl
  after_setup-outcome id none s = steps_ran _ refl (run_steps-HasRun sink id job.name job.steps s)

  after_start-outcome :
      (id : String) (e : Option Error) (s : Session d)
      → JobOutcome job (after_start sink job id e s).0
  unfolding after_start
  after_start-outcome id (some e) s = not_set_up _ refl
  after_start-outcome id none s = after_setup-outcome id _ _

  run_created-outcome :
      (r : Result String) (s : Session d) → JobOutcome job (run_created sink job r s).0
  unfolding run_created run_in_container
  run_created-outcome (err e) s = not_set_up _ refl
  run_created-outcome (ok id) s = after_start-outcome id _ _

  after_pull-outcome :
      (path : String) (e : Option Error) (s : Session d)
      → JobOutcome job (after_pull sink job path e s).0
  unfolding after_pull
  after_pull-outcome path (some e) s = not_set_up _ refl
  after_pull-outcome path none s = run_created-outcome _ _

  pub run_job-outcome : (path : String) (s : Session d) → JobOutcome job (run_job sink job path s).0
  unfolding run_job
  run_job-outcome path s = after_pull-outcome path _ _

step_status-cases :
    (x : StepResult)
    → (step_status x ≡ passed) ⊎ (step_status x ≡ failed) ⊎ (step_status x ≡ errored)
unfolding step_status
step_status-cases x = ground arith

-- The aggregate of step statuses is passed, failed or errored, if there is a step.
aggregate-of_steps :
    (xs : List StepResult)
    → xs ≢ []
    → (aggregate step_status xs ≡ passed)
      ⊎ (aggregate step_status xs ≡ failed)
      ⊎ (aggregate step_status xs ≡ errored)
aggregate-of_steps xs h =
    Any-elim (λ x (e : step_status x ≡ aggregate step_status xs). rw (← e) (step_status-cases x)) xs
      (aggregate-greatest step_status xs h).1

-- The statuses that say that something went wrong.
abbrev pub Broken : Status → Type 0
Broken s = (s ≡ failed) ⊎ (s ≡ errored)

-- The job was set up, and its results are those of all its steps, in order, none with a fault.
abbrev pub RanAll : Job → JobResult → Type 0
RanAll job r =
    (r.setup_err ≡ none)
    × (map (λ x. x.step_name) r.step_results ≡ map (λ x. x.name) job.steps)
    × All (λ x. x.err ≡ none) r.step_results

ran-ok :
    (job : Job) (r : Round) → HasRun job.steps r → (ran job r).1 ≡ none → RanAll job (ran job r).0
unfolding ran
ran-ok job r (finished e names clean) h = (refl, names, clean)
ran-ok job r (broke_off before after step done last e split q names clean b) h =
    absurd (not_both r.1 (ap (λ p. p.1) q) h)
  where
    not_both : (o : Option Error) → o ≡ some e → (ran job (r.0, o)).1 ≡ none → ⊥
    not_both none p q = cc
    not_both (some f) p q = cc

ran-error :
    (job : Job) (r : Round) {e : Error}
    → HasRun job.steps r
    → (ran job r).1 ≡ some e
    → Broken (job_status (ran job r).0)
unfolding ran
ran-error job r {e = x} (finished out names clean) h = absurd (not_both r.1 out h)
  where
    not_both : (o : Option Error) → o ≡ none → (ran job (r.0, o)).1 ≡ some x → ⊥
    not_both none p q = cc
    not_both (some f) p q = cc
ran-error job r (broke_off before after step done last f split q names clean b) h =
    rw (job_status_ran (ran job r).0 refl) (broken (aggregate-of_steps r.0 (Any-ne-nil _ r.0 bad)))
  where
    bad : Any (λ x. step_status x ≢ passed) r.0
    bad = rw q (Any-append _ done last (Broke-not_passed step last f b))

    broken :
        (aggregate step_status r.0 ≡ passed)
          ⊎ (aggregate step_status r.0 ≡ failed)
          ⊎ (aggregate step_status r.0 ≡ errored)
        → Broken (aggregate step_status r.0)
    broken (inl p) =
        Any-All (λ x (n : step_status x ≢ passed) (q : step_status x ≡ passed). absurd (n q)) r.0
          bad ((aggregate-passed_iff step_status r.0).0 p).1
    broken (inr b) = b

outcome-ok :
    (job : Job) (out : JobResult × Option Error)
    → JobOutcome job out
    → out.1 ≡ none
    → RanAll job out.0
unfolding setup_failed
outcome-ok job out (not_set_up e q) h = absurd (some-ne-none (sym (ap (λ o. o.1) q) ∙ h))
  where
    some-ne-none : some e ≡ none → ⊥
    some-ne-none p = cc
outcome-ok job out (steps_ran r q run) h =
    subst (λ o. o.1 ≡ none → RanAll job o.0) (sym q) (ran-ok job r run) h

outcome-error :
    (job : Job) (out : JobResult × Option Error) {e : Error}
    → JobOutcome job out
    → out.1 ≡ some e
    → Broken (job_status out.0)
unfolding setup_failed
outcome-error job out (not_set_up f q) h =
    subst (λ o. Broken (job_status o.0)) (sym q)
      (inr (job_status_setup_failed (setup_failed job f).0 refl))
outcome-error job out {e} (steps_ran r q run) h =
    subst (λ o. o.1 ≡ some e → Broken (job_status o.0)) (sym q) (ran-error job r run) h

module _ {d : Docker} (sink : StepSink d) (job : Job) (path : String) (s : Session d) where
  -- If `Run` returns no error, the job was set up and the results are those of all its steps, in
  -- order, none with a fault.
  pub run_job_ok : (run_job sink job path s).0.1 ≡ none → RanAll job (run_job sink job path s).0.0
  run_job_ok = outcome-ok job _ (run_job-outcome sink job path s)

  -- If `Run` returns an error, the status of its result is failed or errored.
  pub run_job_error :
      {e : Error}
      → (run_job sink job path s).0.1 ≡ some e
      → Broken (job_status (run_job sink job path s).0.0)
  run_job_error = outcome-error job _ (run_job-outcome sink job path s)

  -- If the status of the result is passed, `Run` returned no error, every step of the job ran, in
  -- order, and every one exited with code 0.
  pub run_job-passed :
      job_status (run_job sink job path s).0.0 ≡ passed
      → ((run_job sink job path s).0.1 ≡ none)
        × (map (λ x. x.step_name) (run_job sink job path s).0.0.step_results
            ≡ map (λ x. x.name) job.steps)
        × All StepPassed (run_job sink job path s).0.0.step_results
  run_job-passed h = elim (Option-cases (run_job sink job path s).0.1) [
    | inl done ↦ (done, (run_job_ok done).1, ((job_status-passed_iff _).0 h).2)
    | inr (e, broken) ↦ elim (run_job_error broken) [ inl p ↦ cc | inr p ↦ cc ]
  ]
