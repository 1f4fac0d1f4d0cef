-- ===== src/Config/Sources.antt =====
-- What `Load` of internal/config/loader.go takes from the files.
use odyssey_core_agent.Prelude.{
  String, true, false, Bool-cases, List, [], ◌∷◌, Option, none, some, ◌≡◌, refl, sym, ap, subst,
  ◌⊎◌, ◌↔◌, inl, inr, Map,
}
use odyssey_core_agent.Prelude.Error.{Error, Result, ok, err}
use odyssey_core_agent.Domain.Pipeline.{Pipeline}
use odyssey_core_agent.Config.Models.{EnvConfig, RootConfig, validate}
use odyssey_core_agent.Config.Loader.{translate}
use odyssey_core_agent.Config.Validity.{IsValid}
use odyssey_core_agent.Config.Acceptance.{validate-none_iff}
use odyssey_core_agent.Common.{read_toml}
use odyssey_core_agent.Config.Load.{
  Files, env_of, env_path, load_env, loaded, with_env, validated, with_root, odyssey_path,
  pipeline_path, load,
}

-- The variables for all jobs: none without an `env.toml`, else those of the file, all of whose keys are
-- known.
abbrev pub EnvOf : Files → String → Map String → Type 0
EnvOf files path env =
    ((files.is_missing path ≡ true) × (env ≡ []))
    ⊎ ((files.is_missing path ≡ false)
        × ((config : EnvConfig) × (files.decode_env path ≡ ok (config, [])) × (env ≡ config.env)))

-- The pipeline that the files of a project describe.
pub record Describes (files : Files) (project_path : String) (pipeline : Pipeline) : Type 0 where
  pub root : RootConfig
  pub env : Map String
  pub decodes : files.decode_root (pipeline_path project_path) ≡ ok (root, [])
  pub valid : IsValid root
  pub env_decodes : EnvOf files (env_path (odyssey_path project_path)) env
  pub translates : pipeline ≡ translate root env

read_toml-ok :
    {A : Type 0} (path : String) (file : Result (A × List String)) (a : A)
    → (read_toml path file ≡ ok a) ↔ (file ≡ ok (a, []))
unfolding read_toml
read_toml-ok path (err e) a = (λ h. cc, λ h. cc)
read_toml-ok path (ok (model, [])) a = (λ h. cc, λ h. cc)
read_toml-ok path (ok (model, k ∷ keys)) a = (λ h. cc, λ h. cc)

env_of-ok :
    (config : Result EnvConfig) (env : Map String)
    → (env_of config ≡ ok env) ↔ ((c : EnvConfig) × (config ≡ ok c) × (env ≡ c.env))
unfolding env_of
env_of-ok (err e) env = (λ h. cc, λ (c, h, k). cc)
env_of-ok (ok config) env = (λ h. (config, refl, cc), λ (c, h, k). cc)

load_env-ok :
    (files : Files) (folder : String) (env : Map String)
    → (load_env files folder ≡ ok env) ↔ EnvOf files (env_path folder) env
unfolding load_env
load_env-ok files folder env =
    let path = env_path folder in
    elim (Bool-cases (files.is_missing path)) [
      | inl e ↦ rw e (λ h. inl (refl, cc), elim [ inl (m, h) ↦ ap ok (sym h) | inr (m, h) ↦ cc ])
      | inr e ↦
          let (to, from) = env_of-ok (read_toml path (files.decode_env path)) env in
          rw e (
            λ h.
                let (config, read, same) = to h in
                inr
                  (refl, (config, (read_toml-ok path (files.decode_env path) config).0 read, same)),
            elim [
              | inl (m, h) ↦ cc
              | inr (m, (config, read, same)) ↦
                  from (config, (read_toml-ok path (files.decode_env path) config).1 read, same)
            ],
          )
    ]

with_env-loaded :
    (root : RootConfig) (env : Result (Map String)) (pipeline : Pipeline)
    → (with_env root env ≡ loaded pipeline)
      ↔ ((global : Map String) × (env ≡ ok global) × (pipeline ≡ translate root global))
unfolding with_env
with_env-loaded root (err e) pipeline = (λ h. cc, λ (g, h, k). cc)
with_env-loaded root (ok global) pipeline = (λ h. (global, refl, cc), λ (g, h, k). cc)

validated-loaded :
    (root : RootConfig) (env : Result (Map String)) (errs : Option (List Error))
    (pipeline : Pipeline)
    → (validated root env errs ≡ loaded pipeline)
      ↔ ((errs ≡ none) × (with_env root env ≡ loaded pipeline))
unfolding validated
validated-loaded root env (some errs) pipeline = (λ h. cc, λ h. cc)
validated-loaded root env none pipeline = (λ h. (refl, h), λ h. h.1)

with_root-loaded :
    (env : Result (Map String)) (root : Result RootConfig) (pipeline : Pipeline)
    → (with_root env root ≡ loaded pipeline)
      ↔ ((r : RootConfig) × (root ≡ ok r) × (validated r env (validate r) ≡ loaded pipeline))
unfolding with_root
with_root-loaded env (err e) pipeline = (λ h. cc, λ (r, h, k). cc)
with_root-loaded env (ok root) pipeline = (
  λ h. (root, refl, h),
  λ (r, h, k).
      let same : r ≡ root = cc in
      subst (λ c. validated c env (validate c) ≡ loaded pipeline) same k,
)

-- `Load` returns a pipeline exactly if `pipeline.toml` decodes without unknown keys to a valid
-- configuration, and `env.toml` is missing or decodes without unknown keys; the pipeline is the
-- configuration's, with the variables of `env.toml` for all jobs.
pub load-loaded_iff :
    (files : Files) (project_path : String) (pipeline : Pipeline)
    → (load files project_path ≡ loaded pipeline) ↔ Describes files project_path pipeline
unfolding load
load-loaded_iff files project_path pipeline =
    let folder = odyssey_path project_path in
    let path = pipeline_path project_path in
    let env = load_env files folder in
    let read = read_toml path (files.decode_root path) in
    let (to, from) = with_root-loaded env read pipeline in
    (
      λ h.
          let (root, decoded, accepted) = to h in
          let (passed, complete) =
            (validated-loaded root env (validate root) pipeline).0 accepted in
          let (global, found, same) = (with_env-loaded root env pipeline).0 complete in
          record {
            root = root;
            env = global;
            decodes = (read_toml-ok path (files.decode_root path) root).0 decoded;
            valid = (validate-none_iff root).0 passed;
            env_decodes = (load_env-ok files folder global).0 found;
            translates = same;
          },
      λ d. from (
        d.root,
        (read_toml-ok path (files.decode_root path) d.root).1 d.decodes,
        (validated-loaded d.root env (validate d.root) pipeline).1 (
          (validate-none_iff d.root).1 d.valid,
          (with_env-loaded d.root env pipeline).1
              (d.env, (load_env-ok files folder d.env).1 d.env_decodes, d.translates),
        ),
      ),
    )
