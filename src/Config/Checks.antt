-- ===== src/Config/Checks.antt =====
-- When each check of `RootConfig.Validate` (internal/config/models.go) adds no error.
use odyssey_core_agent.Prelude.{
  ℕ, ◌+◌, String, Bool, true, false, not, List, [], ◌∷◌, ◌≡◌, ◌≢◌, refl, ◌↔◌, arith, ◌==◌, eq_iff,
  Map, All, iff_trans,
}
use odyssey_core_agent.Prelude.Error.{Error, Arg, errorf}
use odyssey_core_agent.Config.Models.{
  is_empty, StepConfig, JobConfig, report, marked, check_steps, check_job_stage, check_job,
  check_jobs,
}
use odyssey_core_agent.Config.Validity.{StepIsValid}
use mathlib.Core.List.{concat-ne-nil}

text_eq-false_iff : (s t : String) → ((s == t) ≡ false) ↔ (s ≢ t)
text_eq-false_iff s t = (λ h e. ground (arith, eq_iff s t), λ h. ground (arith, eq_iff s t))

pub report-nil :
    (test : Bool) (e : Error) (errs : List Error)
    → (report test e errs ≡ []) ↔ ((errs ≡ []) × (test ≡ false))
unfolding report
report-nil true e errs = (λ h. absurd (concat-ne-nil e errs h), λ h. cc)
report-nil false e errs = (λ h. (h, refl), λ h. h.0)

check_steps-nil :
    (job : String) (i : ℕ) (steps : List StepConfig) (errs : List Error)
    → (check_steps job i steps errs ≡ []) ↔ ((errs ≡ []) × All StepIsValid steps)
unfolding check_steps
check_steps-nil job i [] errs = (λ h. (h, tt), λ h. h.0)
check_steps-nil job i (step ∷ steps) errs = iff_trans (check_steps-nil job (i + 1) steps _) (
  λ h.
      let (e₂, positive) = (report-nil _ _ _).0 h.0 in
      let (e₁, run) = (report-nil _ _ _).0 e₂ in
      let (e₀, name) = (report-nil _ _ _).0 e₁ in
      (
        e₀,
        (
          record {
            has_name = (text_eq-false_iff _ _).0 name;
            has_run = (text_eq-false_iff _ _).0 run;
            timeout_not_negative = positive;
          },
          h.1,
        ),
      ),
  λ h.
      let v = h.1.0 in
      (
        (report-nil _ _ _).1 (
          (report-nil _ _ _).1 (
            (report-nil _ _ _).1 (h.0, (text_eq-false_iff _ _).1 v.has_name),
            (text_eq-false_iff _ _).1 v.has_run,
          ),
          v.timeout_not_negative,
        ),
        h.1.1,
      ),
)

check_job_stage-nil :
    (job stage : String) (declared : Bool) (errs : List Error)
    → (check_job_stage job stage declared errs ≡ [])
      ↔ ((errs ≡ []) × (stage ≢ "") × (declared ≡ true))
unfolding check_job_stage
check_job_stage-nil job stage declared errs = ground (
  arith,
  text_eq-false_iff stage "",
  eq_iff stage "",
  report-nil true (errorf "job %q: stage must not be empty" (Arg.text job ∷ [])) errs,
  report-nil (not declared)
      (errorf "job %q: stage %q is not declared in pipeline.stages"
        (Arg.text job ∷ Arg.text stage ∷ []))
      errs,
)

-- What the body of the loop asks of a job, with the declared stages as the map that it consults.
pub record JobPasses (seen : Map Bool) (job : JobConfig) : Type 0 where
  pub has_stage : job.stage ≢ ""
  pub declared : marked seen job.stage ≡ true
  pub has_image : job.image ≢ ""
  pub has_steps : job.steps ≢ []
  pub steps_valid : All StepIsValid job.steps

pub is_empty-false_iff {ℓ} : {A : Type ℓ} (xs : List A) → (is_empty xs ≡ false) ↔ (xs ≢ [])
is_empty-false_iff [] = (λ h. cc, λ h. absurd (h refl))
is_empty-false_iff (x ∷ xs) = (λ h e. cc, λ h. refl)

check_job-nil :
    (seen : Map Bool) (name : String) (job : JobConfig) (errs : List Error)
    → (check_job seen name job errs ≡ []) ↔ ((errs ≡ []) × JobPasses seen job)
unfolding check_job
check_job-nil seen name job errs = iff_trans (check_steps-nil name 0 job.steps _) (
  λ h.
      let (e₂, steps) = (report-nil _ _ _).0 h.0 in
      let (e₁, image) = (report-nil _ _ _).0 e₂ in
      let (e₀, stage, declared) = (check_job_stage-nil _ _ _ _).0 e₁ in
      (
        e₀,
        record {
          has_stage = stage;
          declared = declared;
          has_image = (text_eq-false_iff _ _).0 image;
          has_steps = (is_empty-false_iff _).0 steps;
          steps_valid = h.1;
        },
      ),
  λ h.
      let v = h.1 in
      let e₁ = (check_job_stage-nil name job.stage _ errs).1 (h.0, v.has_stage, v.declared) in
      let e₂ = (report-nil _ _ _).1 (e₁, (text_eq-false_iff _ _).1 v.has_image) in
      ((report-nil _ _ _).1 (e₂, (is_empty-false_iff _).1 v.has_steps), v.steps_valid),
)

pub check_jobs-nil :
    (seen : Map Bool) (jobs : Map JobConfig) (counts : Map ℕ) (errs : List Error)
    → ((check_jobs seen jobs counts errs).1 ≡ [])
      ↔ ((errs ≡ []) × All (λ entry. JobPasses seen entry.1) jobs)
unfolding check_jobs
check_jobs-nil seen [] counts errs = (λ h. (h, tt), λ h. h.0)
check_jobs-nil seen ((name, job) ∷ jobs) counts errs = iff_trans (check_jobs-nil seen jobs _ _) (
  λ h. let (e, passes) = (check_job-nil seen name job errs).0 h.0 in (e, (passes, h.1)),
  λ h. ((check_job-nil seen name job errs).1 (h.0, h.1.0), h.1.1),
)
