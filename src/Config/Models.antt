-- ===== src/Config/Models.antt =====
-- internal/config/models.go: the decoded files and `RootConfig.Validate`.
use odyssey_core_agent.Prelude.{
  ℕ, ◌+◌, String, Bool, true, false, not, List, [], ◌∷◌, ◌++◌, Option, none, some, ℤ, pos,
  is_negative, nat_eq, ◌==◌, if◌then◌else◌, Map, lookup, insert,
}
use odyssey_core_agent.Prelude.Error.{Error, errorf, Arg}

pub record StepConfig : Type 0 where
  pub name : String
  pub run : String
  pub timeout : ℤ

pub record JobConfig : Type 0 where
  pub stage : String
  pub image : String
  pub setup : List String
  pub env : Map String
  pub steps : List StepConfig

pub record PipelineConfig : Type 0 where
  pub name : String
  pub stages : List String

pub record EnvConfig : Type 0 where
  pub env : Map String

pub record RootConfig : Type 0 where
  pub pipeline : PipelineConfig
  pub jobs : Map JobConfig

-- `if test { errs = append(errs, e) }`
unfoldable pub report : Bool → Error → List Error → List Error
report test e errs = if test then errs ++ e ∷ [] else errs

-- `seen[stage]`: false for a missing key.
unfoldable pub marked : Map Bool → String → Bool
marked seen stage = elim (lookup stage seen) [ some b ↦ b | none ↦ false ]

-- `jobsPerStage[stage]`: 0 for a missing key.
unfoldable pub count_at : Map ℕ → String → ℕ
count_at counts stage = elim (lookup stage counts) [ some n ↦ n | none ↦ 0 ]

-- The loop over the stages that finds duplicates.
unfoldable pub check_stages : List String → Map Bool → List Error → Map Bool × List Error
check_stages [] seen errs = (seen, errs)
check_stages (stage ∷ stages) seen errs =
    check_stages stages (insert stage true seen)
      (report (marked seen stage) (errorf "duplicate stage name: %q" (Arg.text stage ∷ [])) errs)

-- The loop over a job's steps, from the step with index `i`.
unfoldable pub check_steps : String → ℕ → List StepConfig → List Error → List Error
check_steps job i [] errs = errs
check_steps job i (step ∷ steps) errs =
    let number = Arg.int (pos (i + 1)) in
    let job_arg = Arg.text job in
    let name_arg = Arg.text step.name in
    let errs₁ =
      report (step.name == "")
        (errorf "job %q: step %d: name must not be empty" (job_arg ∷ number ∷ [])) errs in
    let errs₂ =
      report (step.run == "")
        (errorf "job %q: step %d (%q): run must not be empty" (job_arg ∷ number ∷ name_arg ∷ []))
        errs₁ in
    let errs₃ =
      report (is_negative step.timeout)
        (errorf "job %q: step %d (%q): timeout must not be negative (milliseconds)"
          (job_arg ∷ number ∷ name_arg ∷ []))
        errs₂ in
    check_steps job (i + 1) steps errs₃

-- The test of a job's stage: it is empty, or it is not declared.
unfoldable pub check_job_stage : String → String → Bool → List Error → List Error
check_job_stage job stage declared errs =
    if stage == ""
    then report true (errorf "job %q: stage must not be empty" (Arg.text job ∷ [])) errs
    else report (not declared)
        (errorf "job %q: stage %q is not declared in pipeline.stages"
          (Arg.text job ∷ Arg.text stage ∷ []))
        errs

abbrev pub is_empty {ℓ} : {A : Type ℓ} → List A → Bool
is_empty [] = true
is_empty (x ∷ xs) = false

-- The body of the loop over the jobs, but for `jobsPerStage`.
unfoldable pub check_job : Map Bool → String → JobConfig → List Error → List Error
check_job seen name job errs =
    let errs₁ = check_job_stage name job.stage (marked seen job.stage) errs in
    let errs₂ =
      report (job.image == "") (errorf "job %q: image must not be empty" (Arg.text name ∷ []))
        errs₁ in
    let errs₃ =
      report (is_empty job.steps)
        (errorf "job %q: must define at least one step" (Arg.text name ∷ [])) errs₂ in
    check_steps name 0 job.steps errs₃

-- The loop over the jobs, in the order of one iteration of the map.
unfoldable pub check_jobs : Map Bool → Map JobConfig → Map ℕ → List Error → Map ℕ × List Error
check_jobs seen [] counts errs = (counts, errs)
check_jobs seen ((name, job) ∷ jobs) counts errs =
    check_jobs seen jobs (insert job.stage (count_at counts job.stage + 1) counts)
      (check_job seen name job errs)

-- The loop that finds declared stages with no job.
unfoldable pub check_used : List String → Map ℕ → List Error → List Error
check_used [] counts errs = errs
check_used (stage ∷ stages) counts errs = check_used stages counts (
    report (nat_eq (count_at counts stage) 0) (errorf "stage %q has no jobs" (Arg.text stage ∷ []))
      errs)

-- `errors.Join`: no error if the list is empty.
unfoldable pub join_errors : List Error → Option (List Error)
join_errors [] = none
join_errors (e ∷ errs) = some (e ∷ errs)

-- Every problem that `Validate` collects, in the order in which it does.
unfoldable pub violations : RootConfig → List Error
violations root =
    let stages = root.pipeline.stages in
    let errs₁ =
      report (is_empty stages) (errorf "pipeline must declare at least one stage" []) [] in
    let (seen, errs₂) = check_stages stages [] errs₁ in
    let errs₃ =
      report (is_empty root.jobs) (errorf "pipeline must define at least one job" []) errs₂ in
    let (counts, errs₄) = check_jobs seen root.jobs [] errs₃ in check_used stages counts errs₄

-- `RootConfig.Validate`
unfoldable pub validate : RootConfig → Option (List Error)
validate root = join_errors (violations root)
