-- ===== src/Config/Load.antt =====
-- `Load` and `loadEnv` of internal/config/loader.go.
use odyssey_core_agent.Prelude.{String, Bool, List, [], Option, none, some, Map, if◌then◌else◌}
use odyssey_core_agent.Prelude.Error.{Error, Result, ok, err}
use odyssey_core_agent.Domain.Pipeline.{Pipeline}
use odyssey_core_agent.Common.{read_toml}
use odyssey_core_agent.Filepath.{join}
use odyssey_core_agent.Config.Models.{EnvConfig, RootConfig, validate}
use odyssey_core_agent.Config.Loader.{translate}

-- The files as the TOML library and the system see them: what a file decodes to, with the keys that the
-- model does not have, and whether `os.Stat` reports that there is no such file.
pub record Files : Type 0 where
  pub decode_root : String → Result (RootConfig × List String)
  pub decode_env : String → Result (EnvConfig × List String)
  pub is_missing : String → Bool

-- `loadEnv`, once `env.toml` is read.
unfoldable pub env_of : Result EnvConfig → Result (Map String)
env_of (err e) = err e
env_of (ok config) = ok config.env

unfoldable pub env_path : String → String
unfolding join
env_path odyssey_path = join odyssey_path "env.toml"

-- `loadEnv`: a missing file is no error.
unfoldable pub load_env : Files → String → Result (Map String)
unfolding env_path read_toml env_of
load_env files odyssey_path =
    let path = env_path odyssey_path in
    if files.is_missing path then ok [] else env_of (read_toml path (files.decode_env path))

-- What `Load` wraps: "failed to read pipeline.toml: %w", "invalid pipeline config: %w" and "failed to
-- read env.toml: %w".
pub data Failure : Type 0 where
  unreadable_root : Error → Failure
  invalid : List Error → Failure
  unreadable_env : Error → Failure

pub data Loaded : Type 0 where
  loaded : Pipeline → Loaded
  failed : Failure → Loaded

-- `Load`, once the environment is loaded.
unfoldable pub with_env : RootConfig → Result (Map String) → Loaded
with_env root (err e) = failed (unreadable_env e)
with_env root (ok env) = loaded (translate root env)

-- `Load`, once the configuration is validated.
unfoldable pub validated : RootConfig → Result (Map String) → Option (List Error) → Loaded
unfolding with_env
validated root env (some errs) = failed (invalid errs)
validated root env none = with_env root env

-- `Load`, once `pipeline.toml` is read.
unfoldable pub with_root : Result (Map String) → Result RootConfig → Loaded
unfolding validated
with_root env (err e) = failed (unreadable_root e)
with_root env (ok root) = validated root env (validate root)

unfoldable pub odyssey_path : String → String
unfolding join
odyssey_path project_path = join project_path ".odyssey"

unfoldable pub pipeline_path : String → String
unfolding odyssey_path join
pipeline_path project_path = join (odyssey_path project_path) "pipeline.toml"

-- `Load`. The environment is looked at only behind a valid configuration, and looking changes nothing.
unfoldable pub load : Files → String → Loaded
unfolding pipeline_path read_toml odyssey_path load_env with_root
load files project_path =
    let path = pipeline_path project_path in
    with_root (load_env files (odyssey_path project_path)) (read_toml path (files.decode_root path))
