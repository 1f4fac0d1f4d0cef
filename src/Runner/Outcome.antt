-- ===== src/Runner/Outcome.antt =====
-- What the loop over the steps of internal/runner/docker.go returns.
use odyssey_core_agent.Prelude.{
  ℕ, String, List, [], ◌∷◌, ◌++◌, append_assoc, append-nil, map, Option, none, some, ◌≡◌, refl,
  subst, ◌∙◌, ap, All, Map,
}
use odyssey_core_agent.Prelude.Error.{Error, Result, ok, err}
use odyssey_core_agent.Domain.Result.{StepResult}
use odyssey_core_agent.Domain.Pipeline.{Step}
use odyssey_core_agent.Runner.Docker.{Docker}
use odyssey_core_agent.Runner.Session.{StepSink, Session}
use odyssey_core_agent.Runner.Steps.{
  error_before, error_after, unread_result, executed_result, Round, report_unread, after_success,
  after_exec, exec_step, run_step, continue_with, run_steps,
}
use odyssey_core_agent.Runner.Endings.{
  unread_before, Broke, stopped, unread_after, IsRound, went_on, broke, classify-Breaks,
}

module _ {d : Docker} (sink : StepSink d) (id job : String) where
  after_success-IsRound :
      (start : ℕ) (step : Step) (exported : Map String) (x : StepResult) (r : Result (Map String))
      (s : Session d)
      → x.step_name ≡ step.name
      → x.err ≡ none
      → IsRound step (after_success sink id job start step exported x r s).0
  unfolding after_success report_unread unread_result error_after
  after_success-IsRound start step exported x (err e) s n h =
      broke _ _ refl (unread_after x _ e refl n h refl refl refl refl)
  after_success-IsRound start step exported x (ok m) s n h = went_on x refl n h

  after_exec-IsRound :
      (start : ℕ) (step : Step) (exported : Map String) (x : StepResult) (e : Option Error)
      (s : Session d)
      → x.step_name ≡ step.name
      → x.err ≡ none
      → IsRound step (after_exec sink id job start step exported x e s).0
  unfolding after_exec
  after_exec-IsRound start step exported x (some e) s n h =
      broke _ _ refl (classify-Breaks step x e _ n h)
  after_exec-IsRound start step exported x none s n h =
      after_success-IsRound start step exported x _ _ n h

  exec_step-IsRound :
      (start : ℕ) (step : Step) (r : Result (Map String)) (s : Session d)
      → IsRound step (exec_step sink id job start step r s).0
  unfolding exec_step report_unread unread_result error_before executed_result
  exec_step-IsRound start step (err e) s =
      broke _ _ refl (stopped _ refl refl (unread_before e refl refl refl))
  exec_step-IsRound start step (ok exported) s =
      after_exec-IsRound start step exported _ _ _ refl refl

  run_step-IsRound : (step : Step) (s : Session d) → IsRound step (run_step sink id job step s).0
  unfolding run_step
  run_step-IsRound step s = exec_step-IsRound _ step _ _

-- How far a run of steps got. `finished`: every step went on. `broke_off`: those before `step` went on,
-- with one result each and no fault, and `step` ended the run with the error `e`.
pub data HasRun (steps : List Step) (r : Round) : Type 0 where
  finished :
      r.1 ≡ none
      → map (λ x. x.step_name) r.0 ≡ map (λ x. x.name) steps
      → All (λ x. x.err ≡ none) r.0
      → HasRun steps r
  broke_off :
      (before after : List Step) (step : Step) (done last : List StepResult) (e : Error)
      → steps ≡ before ++ step ∷ after
      → r ≡ (done ++ last, some e)
      → map (λ x. x.step_name) done ≡ map (λ x. x.name) before
      → All (λ x. x.err ≡ none) done
      → Broke step last e
      → HasRun steps r

-- One more step that went on in front.
HasRun-cons :
    (step : Step) (steps : List Step) (x : StepResult) (r : Round)
    → x.step_name ≡ step.name
    → x.err ≡ none
    → HasRun steps r
    → HasRun (step ∷ steps) (x ∷ r.0, r.1)
HasRun-cons step steps x r n h (finished e names clean) = finished e (cc) (h, clean)
HasRun-cons step steps x r n h (broke_off before after stop done last e split q names clean b) =
    broke_off (step ∷ before) after stop (x ∷ done) last e (ap (λ l. step ∷ l) split)
      (ap (λ p. (x ∷ p.0, p.1)) q)
      (ap (λ m. m ∷ map (λ x. x.step_name) done) n ∙ ap (λ l. step.name ∷ l) names) (h, clean) b

went_on_round :
    (step : Step) (steps : List Step) (first rest : Round)
    → first.1 ≡ none
    → IsRound step first
    → HasRun steps rest
    → HasRun (step ∷ steps) (first.0 ++ rest.0, rest.1)
went_on_round step steps first rest h (went_on x e n c) run =
    rw e (HasRun-cons step steps x rest n c run)
went_on_round step steps first rest h (broke xs e q b) run = cc

broken_round :
    (step : Step) (steps : List Step) (first : Round) (e : Error)
    → first.1 ≡ some e
    → IsRound step first
    → HasRun (step ∷ steps) (first.0, some e)
broken_round step steps first e h (went_on x q n c) = cc
broken_round step steps first e h (broke xs f q b) =
    let same : f ≡ e = cc in
    let all : first.0 ≡ xs = ap (λ p. p.0) q in
    broke_off [] steps step [] xs e refl (ap (λ l. (l, some e)) all) refl tt
      (subst (λ g. Broke step xs g) same b)

module _ {d : Docker} (sink : StepSink d) (id job : String) where
  -- The results so far only stand in front.
  run_steps-append :
      (steps : List Step) (results : List StepResult) (s : Session d)
      → (run_steps sink id job steps results s).0 ≡ (
        results ++ (run_steps sink id job steps [] s).0.0,
        (run_steps sink id job steps [] s).0.1,
      )
  unfolding run_steps
  run_steps-append [] results s = rw append-nil
  run_steps-append (step ∷ steps) results s =
      rounds (run_step sink id job step s).0 (run_step sink id job step s).1
        (run_steps-append steps)
    where
      rounds :
          (r : Round) (s' : Session d)
          → ((results : List StepResult) (t : Session d)
              → (run_steps sink id job steps results t).0 ≡ (
                results ++ (run_steps sink id job steps [] t).0.0,
                (run_steps sink id job steps [] t).0.1,
              ))
          → (continue_with (run_steps sink id job steps) results r s').0 ≡ (
            results ++ (continue_with (run_steps sink id job steps) [] r s').0.0,
            (continue_with (run_steps sink id job steps) [] r s').0.1,
          )
      rounds (rs, none) s' ih = rw (ih (results ++ rs) s', ih rs s', append_assoc)
      rounds (rs, some e) s' ih = refl

  -- The loop runs the steps in their order and leaves it at the first step that does not go on: either
  -- all went on, with one result each and no fault, and no error is returned; or those before the one
  -- that did not went on so, and that step left one result, which is cancelled, timed out, or has a
  -- fault, or that of its process and one for the variables that could not be read; the error returned
  -- is the one that belongs to the last result.
  pub run_steps-HasRun :
      (steps : List Step) (s : Session d) → HasRun steps (run_steps sink id job steps [] s).0
  unfolding run_steps
  run_steps-HasRun [] s = finished refl refl tt
  run_steps-HasRun (step ∷ steps) s =
      rounds (run_step sink id job step s).0 (run_step sink id job step s).1
        (run_step-IsRound sink id job step s) (run_steps-HasRun steps)
    where
      rounds :
          (r : Round) (s' : Session d)
          → IsRound step r
          → ((t : Session d) → HasRun steps (run_steps sink id job steps [] t).0)
          → HasRun (step ∷ steps) (continue_with (run_steps sink id job steps) [] r s').0
      rounds (rs, none) s' b ih =
          rw (run_steps-append steps rs s') (went_on_round step steps (rs, none) _ refl b (ih s'))
      rounds (rs, some e) s' b ih = broken_round step steps (rs, some e) e refl b
