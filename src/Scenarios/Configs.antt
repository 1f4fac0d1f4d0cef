-- ===== src/Scenarios/Configs.antt =====
-- A configuration of two stages, for internal/config.
use mathlib.Core.List.{Permᴰ}
use odyssey_core_agent.Prelude.{
  String, [], ◌∷◌, map, some, none, inl, inr, pos, ◌≡◌, ◌≢◌, ◌↔◌, refl, arith, ◌==◌, eq_iff, false,
  Map, lookup, keys, IsMap, All, Any,
}
use odyssey_core_agent.Prelude.TextOrder.{sort_strings}
use odyssey_core_agent.Config.Models.{StepConfig, JobConfig, PipelineConfig, RootConfig, validate}
use odyssey_core_agent.Config.Loader.{translate_job, translate}
use odyssey_core_agent.Config.Validity.{StepIsValid, JobIsValid, IsValid}
use odyssey_core_agent.Config.Acceptance.{validate-none_iff}
use odyssey_core_agent.Config.Translation.{stage_jobs, translate-stages, translate-perm}
use odyssey_core_agent.Config.Delivery.{translate_keeps_job, translate-IsRunnable}

abbrev pub compile : StepConfig
compile = record { name = "make"; run = "make"; timeout = pos 60000 }

abbrev pub lint : JobConfig
lint = record { stage = "check"; image = "golang:1.24"; setup = []; env = []; steps = compile ∷ [] }

abbrev pub bundle : JobConfig
bundle = record {
  stage = "build";
  image = "alpine:3";
  setup = "apk add make" ∷ [];
  env = ("CGO_ENABLED", "1") ∷ [];
  steps = compile ∷ compile ∷ [];
}

abbrev pub demo_stages : PipelineConfig
demo_stages = record { name = "demo"; stages = "check" ∷ "build" ∷ [] }

abbrev pub demo : RootConfig
demo = record { pipeline = demo_stages; jobs = ("package", bundle) ∷ ("lint", lint) ∷ [] }

abbrev global : Map String
global = ("CGO_ENABLED", "0") ∷ ("GOFLAGS", "-mod=vendor") ∷ []

differ : (a b : String) → (a == b) ≡ false → ¬ (a ≡ b)
differ a b h e = ground (arith, eq_iff a b)

global-IsMap : IsMap global
global-IsMap = (elim [ inl e ↦ cc | inr h ↦ h ], (λ h. h, tt))

env-IsMap : IsMap bundle.env
env-IsMap = (λ h. h, tt)

jobs-IsMap : IsMap demo.jobs
jobs-IsMap = (elim [ inl e ↦ cc | inr h ↦ h ], (λ h. h, tt))

compile-IsValid : StepIsValid compile
compile-IsValid = record { has_name = λ e. cc; has_run = λ e. cc; timeout_not_negative = refl }

lint-IsValid : JobIsValid demo.pipeline.stages lint
lint-IsValid = record {
  has_stage = λ e. cc;
  stage_declared = inl refl;
  has_image = λ e. cc;
  has_steps = λ e. cc;
  steps_valid = (compile-IsValid, tt);
}

bundle-IsValid : JobIsValid demo.pipeline.stages bundle
bundle-IsValid = record {
  has_stage = λ e. cc;
  stage_declared = inr (inl refl);
  has_image = λ e. cc;
  has_steps = λ e. cc;
  steps_valid = (compile-IsValid, (compile-IsValid, tt));
}

demo-IsValid : IsValid demo
demo-IsValid = record {
  has_stages = λ e. cc;
  stages_distinct = (elim [ inl e ↦ differ "build" "check" refl e | inr h ↦ h ], (λ h. h, tt));
  has_jobs = λ e. cc;
  jobs_valid = (bundle-IsValid, (lint-IsValid, tt));
  stages_used = (inr (inl refl), (inl refl, tt));
}

swapped : Permᴰ demo.jobs (("lint", lint) ∷ ("package", bundle) ∷ [])
swapped = Permᴰ.swap {l = []} refl refl

package_found : lookup "package" demo.jobs ≡ some bundle
unfolding lookup
package_found = refl

validate-none_iff_example : (validate demo ≡ none) ↔ IsValid demo
validate-none_iff_example = validate-none_iff demo

translate_keeps_job_example :
    Any
      (λ stage.
        (stage.name ≡ bundle.stage)
        × Any (λ job. job ≡ translate_job global "package" bundle) stage.jobs)
      (translate demo global).stages
translate_keeps_job_example = translate_keeps_job demo global "package" demo-IsValid package_found

translate-IsRunnable_example :
    All
      (λ stage. (stage.jobs ≢ []) × All (λ job. job.steps ≢ []) stage.jobs)
      (translate demo global).stages
translate-IsRunnable_example = translate-IsRunnable demo global jobs-IsMap demo-IsValid

translate-stages_example :
    (translate demo global).stages
    ≡ map
        (λ stage. record {
          name = stage;
          jobs = stage_jobs demo.jobs global stage (sort_strings (keys demo.jobs));
        })
        demo.pipeline.stages
translate-stages_example = translate-stages demo global

translate-perm_example :
    translate demo global
    ≡ translate
        (record { pipeline = demo_stages; jobs = ("lint", lint) ∷ ("package", bundle) ∷ [] })
        global
translate-perm_example = translate-perm demo_stages global swapped jobs-IsMap
