-- ===== src/Config/Loader.antt =====
-- `translate` and `mergeEnv` of internal/config/loader.go.
use odyssey_core_agent.Prelude.{
  String, List, [], ◌∷◌, ◌++◌, map, none, some, Map, lookup, insert, copy, keys,
}
use odyssey_core_agent.Prelude.TextOrder.{sort_strings}
use odyssey_core_agent.Domain.Pipeline.{Step, Job, Pipeline}
use odyssey_core_agent.Config.Models.{StepConfig, JobConfig, RootConfig}

unfoldable pub merge_env : Map String → Map String → Map String
merge_env global job_level = copy (copy [] global) job_level

-- The zero value that `root.Jobs[jobKey]` has for a missing key.
abbrev pub zero_job : JobConfig
zero_job = record { stage = ""; image = ""; setup = []; env = []; steps = [] }

-- `root.Jobs[jobKey]`
unfoldable pub job_at : Map JobConfig → String → JobConfig
job_at jobs key = elim (lookup key jobs) [ some job ↦ job | none ↦ zero_job ]

-- `jobsByStage[stage]`: nil for a missing key.
unfoldable pub jobs_at : Map (List Job) → String → List Job
jobs_at by_stage stage = elim (lookup stage by_stage) [ some jobs ↦ jobs | none ↦ [] ]

unfoldable pub translate_step : StepConfig → Step
translate_step s = record { name = s.name; run = s.run; timeout = s.timeout }

-- One job with its steps, as the body of the loop builds it.
unfoldable pub translate_job : Map String → String → JobConfig → Job
translate_job global key cfg = record {
  name = key;
  image = cfg.image;
  setup = cfg.setup;
  steps = map translate_step cfg.steps;
  env = merge_env global cfg.env;
}

-- The loop over the sorted keys that groups the jobs by stage.
unfoldable pub group_jobs :
    Map JobConfig → Map String → List String → Map (List Job) → Map (List Job)
group_jobs jobs global [] by_stage = by_stage
group_jobs jobs global (key ∷ rest) by_stage =
    let cfg = job_at jobs key in
    group_jobs jobs global rest
      (insert cfg.stage (jobs_at by_stage cfg.stage ++ translate_job global key cfg ∷ []) by_stage)

unfoldable pub translate : RootConfig → Map String → Pipeline
translate root global =
    let by_stage = group_jobs root.jobs global (sort_strings (keys root.jobs)) [] in
    record {
      name = root.pipeline.name;
      stages =
          map (λ stage. record { name = stage; jobs = jobs_at by_stage stage })
            root.pipeline.stages;
    }
