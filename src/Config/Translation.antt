-- ===== src/Config/Translation.antt =====
-- The pipeline that `translate` of internal/config/loader.go builds from a configuration.
use mathlib.Core.List.{Permᴰ}
use odyssey_core_agent.Prelude.{
  String, List, [], ◌∷◌, ◌++◌, append-nil, append_assoc, map, none, some, ◌≡◌, refl, sym, arith,
  ◌==◌, eq_iff, if◌then◌else◌, Map, lookup, insert, copy, keys, IsMap, lookup-insert, select,
}
use odyssey_core_agent.Prelude.MapOrder.{lookup-copy, lookup-perm, keys-perm}
use odyssey_core_agent.Prelude.TextOrder.{sort_strings}
use odyssey_core_agent.Prelude.TextOrder.Sorting.{sort_strings-perm}
use odyssey_core_agent.Domain.Pipeline.{Job}
use odyssey_core_agent.Config.Models.{JobConfig, PipelineConfig, RootConfig}
use odyssey_core_agent.Config.Loader.{
  merge_env, job_at, jobs_at, translate_job, group_jobs, translate,
}

-- A job's environment has the job-level value of a key if there is one, else the global value, else
-- none, where each of the two maps holds a key once.
pub lookup-merge_env :
    (k : String) (global job_level : Map String)
    → IsMap global
    → IsMap job_level
    → lookup k (merge_env global job_level)
      ≡ elim (lookup k job_level) [ some v ↦ some v | none ↦ lookup k global ]
unfolding merge_env lookup
lookup-merge_env k global job_level hg hj =
    ground (arith, lookup-copy k (copy [] global) job_level hj, lookup-copy k [] global hg)

jobs_at-insert :
    (s t : String) (js : List Job) (m : Map (List Job))
    → jobs_at (insert s js m) t ≡ (if s == t then js else jobs_at m t)
unfolding jobs_at
jobs_at-insert s t js m = ground (arith, lookup-insert s t js m)

module _ (jobs : Map JobConfig) (global : Map String) where
  -- The jobs of a stage: of the given keys, those whose job names the stage, in the order of the keys.
  abbrev pub stage_jobs : String → List String → List Job
  stage_jobs stage ks =
      map (λ k. translate_job global k (job_at jobs k))
        (select (λ k. (job_at jobs k).stage == stage) ks)

  jobs_at-group_jobs :
      (stage : String) (ks : List String) (m : Map (List Job))
      → jobs_at (group_jobs jobs global ks m) stage ≡ jobs_at m stage ++ stage_jobs stage ks
  unfolding group_jobs
  jobs_at-group_jobs stage [] m = sym (append-nil _)
  jobs_at-group_jobs stage (k ∷ ks) m =
      let cfg = job_at jobs k in
      let job = translate_job global k cfg in
      let grown = jobs_at m cfg.stage ++ job ∷ [] in
      ground (
        arith,
        jobs_at-group_jobs stage ks (insert cfg.stage grown m),
        jobs_at-insert cfg.stage stage grown m,
        eq_iff cfg.stage stage,
        append_assoc (jobs_at m stage) (job ∷ []) (stage_jobs stage ks),
      )

-- The stages are the declared ones in their order, and each holds exactly the jobs that name it, in
-- the order of their sorted names.
pub translate-stages :
    (root : RootConfig) (global : Map String)
    → (translate root global).stages
      ≡ map
          (λ stage. record {
            name = stage;
            jobs = stage_jobs root.jobs global stage (sort_strings (keys root.jobs));
          })
          root.pipeline.stages
unfolding translate jobs_at lookup
translate-stages root global = λ i.
    map
      (λ stage. record {
        name = stage;
        jobs = jobs_at-group_jobs root.jobs global stage (sort_strings (keys root.jobs)) [] i;
      })
      root.pipeline.stages

job_at-perm : {a b : Map JobConfig} (k : String) → Permᴰ a b → IsMap a → job_at a k ≡ job_at b k
unfolding job_at
job_at-perm k p h = rw (lookup-perm k p h, job_at)

group_jobs-perm :
    {a b : Map JobConfig} (global : Map String) (ks : List String) (m : Map (List Job))
    → Permᴰ a b
    → IsMap a
    → group_jobs a global ks m ≡ group_jobs b global ks m
unfolding group_jobs
group_jobs-perm global [] m p h = refl
group_jobs-perm global (k ∷ ks) m p h = rw (job_at-perm k p h) (group_jobs-perm global ks _ p h)

-- The pipeline does not depend on the order in which the jobs' map, which holds a key once, is
-- iterated.
pub translate-perm :
    (pipeline : PipelineConfig) {a b : Map JobConfig} (global : Map String)
    → Permᴰ a b
    → IsMap a
    → translate (record { pipeline = pipeline; jobs = a }) global
      ≡ translate (record { pipeline = pipeline; jobs = b }) global
unfolding translate
translate-perm pipeline {a} {b} global p h =
    rw (sort_strings-perm (keys-perm p), group_jobs-perm global (sort_strings (keys b)) [] p h)
