-- ===== src/Scenarios/Requests.antt =====
-- Requests to internal/server, and a start of cmd/server.
use odyssey_core_agent.Prelude.{
  String, true, false, List, [], none, ◌≡◌, ◌≢◌, refl, ◌==◌, ◌↔◌, eq_iff, if◌then◌else◌,
}
use odyssey_core_agent.Prelude.Error.{Error, external, Result, ok, err}
use odyssey_core_agent.Domain.Pipeline.{Pipeline}
use odyssey_core_agent.Config.Models.{RootConfig}
use odyssey_core_agent.Config.Loader.{translate}
use odyssey_core_agent.Config.Load.{Files, loaded, load}
use odyssey_core_agent.Config.Sources.{Describes, load-loaded_iff}
use odyssey_core_agent.Filepath.{is_slash, is_abs}
use odyssey_core_agent.Server.Paths.{project_path_allowed}
use odyssey_core_agent.Server.Location.{Beneath}
use odyssey_core_agent.Server.Confinement.{project_path_allowed-Beneath}
use odyssey_core_agent.Server.Handler.{Server}
use odyssey_core_agent.Commands.Startup.{Surroundings, start}
use odyssey_core_agent.Commands.Readiness.{Ends, start-Ends}
use odyssey_core_agent.Scenarios.Configs.{demo}
use odyssey_core_agent.Scenarios.Runs.{world}

-- The working directory.
abbrev here : Result String
here = ok "/srv/projects/app"

here-is_abs : (d : String) → here ≡ ok d → is_abs d ≡ true
unfolding is_abs is_slash
here-is_abs d h = let same : d ≡ "/srv/projects/app" = cc in rw same refl

abbrev served_root : String
served_root = "/srv/projects"

set_root : served_root ≢ ""
set_root = λ e. (let same = (eq_iff served_root "").1 e in cc)

project_path_allowed-Beneath_example :
    (project_path_allowed here "/srv/projects" "../lib/./src" ≡ true)
    ↔ Beneath here "/srv/projects" "../lib/./src"
project_path_allowed-Beneath_example =
    project_path_allowed-Beneath here here-is_abs "/srv/projects" "../lib/./src" set_root

sibling_allowed : project_path_allowed here "/srv/projects" "../lib/./src" ≡ true
unfolding project_path_allowed
sibling_allowed = refl

traversal_refused : project_path_allowed here "/srv/projects" "/srv/projects/../secrets" ≡ false
unfolding project_path_allowed
traversal_refused = refl

lookalike_refused : project_path_allowed here "/srv/projects" "/srv/projects-evil" ≡ false
unfolding project_path_allowed
lookalike_refused = refl

root_confines_nothing : project_path_allowed here "/" "../../.." ≡ true
unfolding project_path_allowed
root_confines_nothing = refl

-- The project has a configuration, and no variables.
abbrev no_file : Error
no_file = external "no such file"

abbrev demo_root : String → Result (RootConfig × List String)
demo_root path =
    if path == "/srv/projects/app/.odyssey/pipeline.toml" then ok (demo, []) else err no_file

abbrev demo_files : Files
demo_files = record {
  decode_root = demo_root;
  decode_env = λ path. err no_file;
  is_missing = λ path. true;
}

abbrev demo_pipeline : Pipeline
demo_pipeline = translate demo []

load-loaded_iff_example :
    (load demo_files "/srv/projects/app" ≡ loaded demo_pipeline)
    ↔ Describes demo_files "/srv/projects/app" demo_pipeline
load-loaded_iff_example = load-loaded_iff demo_files "/srv/projects/app" demo_pipeline

abbrev demo_server : Server
demo_server = record {
  project_root = "/srv/projects";
  getwd = here;
  files = demo_files;
  render = λ e. "error";
  has_runner = true;
  world = world;
}

-- A start with an event bus, by default at localhost.
abbrev demo_getenv : String → String
demo_getenv name = if name == "ODYSSEY_REDIS_ADDR" then "localhost:6379" else ""

abbrev demo_start : Surroundings
demo_start = record {
  getenv = demo_getenv;
  listen = λ addr. none;
  open_results = λ path. none;
  new_runner = none;
  serve = λ addr. none;
  hostname = ok "ci";
  pid = 17;
}

start-Ends_example : Ends demo_start (start demo_start)
start-Ends_example = start-Ends demo_start
