-- ===== src/Config/Delivery.antt =====
-- What a valid configuration's pipeline runs: no job is lost, and nothing in it is empty.
use odyssey_core_agent.Prelude.{
  String, List, [], ◌∷◌, some, ◌≡◌, ◌≢◌, refl, ◌==◌, eq_iff, Map, lookup, keys, IsMap, map, All,
  Any, All-mono, Any-mono, Any-ne-nil, Any-map, All-map, Any-select, All-select,
}
use odyssey_core_agent.Prelude.MapOrder.{All-lookup, Any-lookup, In-keys, All-keys}
use odyssey_core_agent.Prelude.TextOrder.{sort_strings}
use odyssey_core_agent.Prelude.TextOrder.Sorting.{Any-sort_strings, All-sort_strings}
use odyssey_core_agent.Config.Models.{JobConfig, RootConfig}
use odyssey_core_agent.Config.Loader.{job_at, translate_job, translate_step, translate}
use odyssey_core_agent.Config.Validity.{JobIsValid, IsValid}
use odyssey_core_agent.Config.Translation.{stage_jobs, translate-stages}

job_at-found :
    (jobs : Map JobConfig) (k : String) {cfg : JobConfig}
    → lookup k jobs ≡ some cfg
    → job_at jobs k ≡ cfg
unfolding job_at
job_at-found jobs k h = rw (h, job_at)

map-ne-nil {ℓ κ} : {A : Type ℓ} {B : Type κ} (f : A → B) (xs : List A) → xs ≢ [] → map f xs ≢ []
map-ne-nil f [] h = absurd (h refl)
map-ne-nil f (x ∷ xs) h = λ e. cc

steps-translate_job :
    (global : Map String) (k : String) (cfg : JobConfig)
    → cfg.steps ≢ []
    → (translate_job global k cfg).steps ≢ []
unfolding translate_job
steps-translate_job global k cfg h = map-ne-nil translate_step cfg.steps h

module _ (root : RootConfig) (global : Map String) where
  -- A job of the configuration stands in the list of its stage.
  delivered :
      (k : String) {cfg : JobConfig}
      → lookup k root.jobs ≡ some cfg
      → Any
          (λ job. job ≡ translate_job global k cfg)
          (stage_jobs root.jobs global cfg.stage (sort_strings (keys root.jobs)))
  delivered k {cfg} h =
      let found = job_at-found root.jobs k h in
      Any-map _ (λ j. translate_job global j (job_at root.jobs j)) (λ j (e : j ≡ k). rw (e, found))
        _
        (Any-select (λ j. (job_at root.jobs j).stage == cfg.stage) (λ j. j ≡ k)
          (λ j e. (eq_iff _ _).1 (rw (e, found))) (sort_strings (keys root.jobs))
          (Any-sort_strings (λ j. j ≡ k) (keys root.jobs) (In-keys root.jobs k h)))

  -- Every job of a valid configuration stands, as `translate` builds it, in the stage that it names.
  pub translate_keeps_job :
      (k : String) {cfg : JobConfig}
      → IsValid root
      → lookup k root.jobs ≡ some cfg
      → Any
          (λ stage.
            (stage.name ≡ cfg.stage) × Any (λ job. job ≡ translate_job global k cfg) stage.jobs)
          (translate root global).stages
  translate_keeps_job k {cfg} v h = rw (translate-stages root global) (
      Any-map _
        (λ stage. record {
          name = stage;
          jobs = stage_jobs root.jobs global stage (sort_strings (keys root.jobs));
        })
        (λ stage (e : stage ≡ cfg.stage). (e, rw e (delivered k h))) root.pipeline.stages
        (All-lookup (λ entry. JobIsValid root.pipeline.stages entry.1) root.jobs {k = k}
          v.jobs_valid h).stage_declared)

-- In the pipeline of a valid configuration, whose map of jobs holds a key once, every stage has a job
-- and every job has a step.
pub translate-IsRunnable :
    (root : RootConfig) (global : Map String)
    → IsMap root.jobs
    → IsValid root
    → All
        (λ stage. (stage.jobs ≢ []) × All (λ job. job.steps ≢ []) stage.jobs)
        (translate root global).stages
translate-IsRunnable root global u v = rw (translate-stages root global) (
    All-map _
      (λ stage. record {
        name = stage;
        jobs = stage_jobs root.jobs global stage (sort_strings (keys root.jobs));
      })
      (λ stage used. (
        Any-ne-nil _ _ (filled stage used),
        All-map _ _ (λ k steps. steps) _
            (All-select _ _ _ (All-sort_strings _ (keys root.jobs) with_steps)),
      ))
      root.pipeline.stages v.stages_used)
  where
    filled :
        (stage : String)
        → Any (λ entry. entry.1.stage ≡ stage) root.jobs
        → Any (λ job. Unit) (stage_jobs root.jobs global stage (sort_strings (keys root.jobs)))
    filled stage used =
        let (k, cfg, found, e) = Any-lookup (λ entry. entry.1.stage ≡ stage) root.jobs u used in
        rw (← e) (Any-mono (λ job same. tt) _ (delivered root global k found))

    with_steps :
        All (λ k. (translate_job global k (job_at root.jobs k)).steps ≢ []) (keys root.jobs)
    with_steps =
        All-mono
          (λ k (found : (cfg : JobConfig) × (lookup k root.jobs ≡ some cfg)).
            rw (job_at-found root.jobs k found.1) (
              steps-translate_job global k found.0
                (All-lookup (λ entry. JobIsValid root.pipeline.stages entry.1) root.jobs {k = k}
                  v.jobs_valid found.1).has_steps))
          (keys root.jobs) (All-keys root.jobs)
