-- ===== src/Config/Acceptance.antt =====
-- `RootConfig.Validate` (internal/config/models.go) against the description of valid configurations.
use odyssey_core_agent.Prelude.{
  Bool, true, false, [], ◌∷◌, none, ◌≡◌, refl, ◌⊎◌, inl, inr, ◌↔◌, Map, All, Any, lookup, iff_trans,
  All-iff, List, String,
}
use odyssey_core_agent.Prelude.Error.{Error}
use odyssey_core_agent.Config.Models.{
  JobConfig, RootConfig, marked, count_at, check_stages, check_jobs, join_errors, violations,
  validate,
}
use odyssey_core_agent.Config.Validity.{JobIsValid, IsValid, In}
use odyssey_core_agent.Config.Checks.{JobPasses, report-nil, is_empty-false_iff, check_jobs-nil}
use odyssey_core_agent.Config.Stages.{
  used, check_stages-nil, check_stages-marked, check_jobs-used, check_used-nil,
}

-- The map that the loop over the stages leaves says which stages are declared.
JobPasses-iff :
    (stages : List String) (errs : List Error) (job : JobConfig)
    → JobPasses (check_stages stages [] errs).0 job ↔ JobIsValid stages job
unfolding marked lookup
JobPasses-iff stages errs job =
    let (to, from) = check_stages-marked stages [] errs job.stage in
    (
      λ h. record {
        has_stage = h.has_stage;
        stage_declared = only (to h.declared);
        has_image = h.has_image;
        has_steps = h.has_steps;
        steps_valid = h.steps_valid;
      },
      λ h. record {
        has_stage = h.has_stage;
        declared = from (inl h.stage_declared);
        has_image = h.has_image;
        has_steps = h.has_steps;
        steps_valid = h.steps_valid;
      },
    )
  where
    only : (In job.stage stages) ⊎ (marked [] job.stage ≡ true) → In job.stage stages
    only (inl m) = m
    only (inr e) = cc

used_iff :
    (seen : Map Bool) (jobs : Map JobConfig) (errs : List Error) (stage : String)
    → (used (check_jobs seen jobs [] errs).0 stage ≡ true)
      ↔ Any (λ entry. entry.1.stage ≡ stage) jobs
unfolding count_at lookup
used_iff seen jobs errs stage =
    iff_trans (check_jobs-used seen jobs [] errs stage)
      (elim [ inl m ↦ m | inr e ↦ cc ], λ m. inl m)

unmarked : (stages : List String) → All (λ s. marked [] s ≡ false) stages
unfolding marked lookup
unmarked [] = tt
unmarked (s ∷ ss) = (refl, unmarked ss)

violations-nil : (root : RootConfig) → (violations root ≡ []) ↔ IsValid root
unfolding violations
violations-nil root =
    let stages = root.pipeline.stages in
    (
      λ h.
          let (e₄, used) = (check_used-nil stages _ _).0 h in
          let (e₃, passes) = (check_jobs-nil _ root.jobs [] _).0 e₄ in
          let (e₂, jobs) = (report-nil _ _ _).0 e₃ in
          let (e₁, fresh, distinct) = (check_stages-nil stages [] _).0 e₂ in
          let (e₀, declared) = (report-nil _ _ _).0 e₁ in
          record {
            has_stages = (is_empty-false_iff _).0 declared;
            stages_distinct = distinct;
            has_jobs = (is_empty-false_iff _).0 jobs;
            jobs_valid = (All-iff (λ entry. JobPasses-iff stages _ entry.1) root.jobs).0 passes;
            stages_used = (All-iff (used_iff _ root.jobs _) stages).0 used;
          },
      λ v.
          let e₁ = (report-nil _ _ _).1 (refl, (is_empty-false_iff _).1 v.has_stages) in
          let e₂ = (check_stages-nil stages [] _).1 (e₁, unmarked stages, v.stages_distinct) in
          let e₃ = (report-nil _ _ _).1 (e₂, (is_empty-false_iff _).1 v.has_jobs) in
          let e₄ =
            (check_jobs-nil _ root.jobs [] _).1
              (e₃, (All-iff (λ entry. JobPasses-iff stages _ entry.1) root.jobs).1 v.jobs_valid) in
          (check_used-nil stages _ _).1
            (e₄, (All-iff (used_iff _ root.jobs _) stages).1 v.stages_used),
    )

join_errors-none : (errs : List Error) → (join_errors errs ≡ none) ↔ (errs ≡ [])
unfolding join_errors
join_errors-none [] = (λ h. refl, λ h. refl)
join_errors-none (e ∷ errs) = (λ h. cc, λ h. cc)

-- `Validate` reports no error exactly for the valid configurations: the stages are declared, not
-- empty and distinct, there is a job, every job names a declared stage, an image and at least one
-- step, every step has a name, a command and no negative timeout, and every stage has a job.
pub validate-none_iff : (root : RootConfig) → (validate root ≡ none) ↔ IsValid root
unfolding validate
validate-none_iff root = iff_trans (join_errors-none (violations root)) (violations-nil root)
