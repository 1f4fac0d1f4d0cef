-- ===== src/Runner/Endings.antt =====
-- How a step of internal/runner/docker.go ends, and the error that belongs to it.
use odyssey_core_agent.Prelude.{
  List, [], ◌∷◌, Option, none, some, ◌≡◌, ◌≢◌, refl, true, Bool-cases, is_positive, inl, inr, Any,
}
use odyssey_core_agent.Prelude.Error.{Error, Arg, errorf, wrapf, is_deadline_exceeded}
use odyssey_core_agent.Domain.Status.{passed, exit_none, exit_failure}
use odyssey_core_agent.Domain.Result.{StepResult, step_status}
use odyssey_core_agent.Domain.Pipeline.{Step}
use odyssey_core_agent.Runner.Steps.{classify, Round}

-- How the result of a step that ended its run belongs to the error that is returned: the run was
-- cancelled; the step's time was up; the command met the fault; or the variables could not be read
-- before it.
pub data Breaks (step : Step) (x : StepResult) (e : Error) : Type 0 where
  cancelled :
      x.exit_code ≡ exit_none → x.err ≡ some (wrapf "run cancelled: %w" [] e) → Breaks step x e
  timed_out :
      is_positive step.timeout ≡ true
      → x.exit_code ≡ exit_failure
      → x.err ≡ none
      → e ≡ errorf "step %s timed out after %dms" (Arg.text step.name ∷ Arg.int step.timeout ∷ [])
      → Breaks step x e
  faulted : x.err ≡ some e → Breaks step x e
  unread_before :
      (f : Error)
      → x.exit_code ≡ exit_none
      → x.err ≡ some f
      → e ≡ wrapf "failed to read exported env before step %q: %w" (Arg.text step.name ∷ []) f
      → Breaks step x e

-- What a step leaves that ended its run: one result that belongs to the error, or that of its process,
-- which met no fault, and one more, for the variables that could not be read after it.
pub data Broke (step : Step) (xs : List StepResult) (e : Error) : Type 0 where
  stopped :
      (x : StepResult) → xs ≡ x ∷ [] → x.step_name ≡ step.name → Breaks step x e → Broke step xs e
  unread_after :
      (x y : StepResult) (f : Error)
      → xs ≡ x ∷ y ∷ []
      → x.step_name ≡ step.name
      → x.err ≡ none
      → y.step_name ≡ step.name
      → y.exit_code ≡ exit_none
      → y.err ≡ some f
      → e ≡ wrapf "failed to read exported env after step %q: %w" (Arg.text step.name ∷ []) f
      → Broke step xs e

-- What one round can return: it went on to the next step, with one result and no fault, or it ended
-- the run.
pub data IsRound (step : Step) (r : Round) : Type 0 where
  went_on :
      (x : StepResult)
      → r ≡ (x ∷ [], none)
      → x.step_name ≡ step.name
      → x.err ≡ none
      → IsRound step r
  broke : (xs : List StepResult) (e : Error) → r ≡ (xs, some e) → Broke step xs e → IsRound step r

faulty-not_passed : (x : StepResult) {e : Error} → x.err ≡ some e → step_status x ≢ passed
unfolding step_status
faulty-not_passed x h = rw h (λ q. cc)

Breaks-not_passed :
    (step : Step) (x : StepResult) (e : Error) → Breaks step x e → step_status x ≢ passed
unfolding step_status
Breaks-not_passed step x e (cancelled c h) = faulty-not_passed x h
Breaks-not_passed step x e (timed_out p c h q) = rw (h, c) (λ q. cc)
Breaks-not_passed step x e (faulted h) = faulty-not_passed x h
Breaks-not_passed step x e (unread_before f c h q) = faulty-not_passed x h

-- Of what such a step leaves, one result is not passed.
pub Broke-not_passed :
    (step : Step) (xs : List StepResult) (e : Error)
    → Broke step xs e
    → Any (λ x. step_status x ≢ passed) xs
Broke-not_passed step xs e (stopped x q n b) = rw q (inl (Breaks-not_passed step x e b))
Broke-not_passed step xs e (unread_after x y f q n c m d h g) =
    rw q (inr (inl (faulty-not_passed y h)))

pub classify-Breaks :
    (step : Step) (x : StepResult) (e : Error) (c : Option Error)
    → x.step_name ≡ step.name
    → x.err ≡ none
    → Broke step ((classify step x e c).0 ∷ []) (classify step x e c).1
unfolding classify
classify-Breaks step x e (some c) n h = stopped _ refl n (cancelled refl refl)
classify-Breaks step x e none n h = elim (Bool-cases (is_positive step.timeout)) [
  | inr q ↦ rw q (stopped _ refl n (faulted refl))
  | inl q ↦ elim (Bool-cases (is_deadline_exceeded e)) [
    | inl g ↦ rw (q, g) (stopped _ refl n (timed_out q refl h refl))
    | inr g ↦ rw (q, g) (stopped _ refl n (faulted refl))
  ]
]
