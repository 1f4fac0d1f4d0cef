-- ===== src/Server/Admission.antt =====
-- Which requests `RunPipeline` of internal/server/server.go serves.
use odyssey_core_agent.Prelude.{String, true, false, ◌≡◌, ◌⊎◌}
use odyssey_core_agent.Domain.Pipeline.{Pipeline}
use odyssey_core_agent.Config.Load.{Failure}
use odyssey_core_agent.Config.Sources.{Describes}
use odyssey_core_agent.Orchestrator.Bus.{Bus}
use odyssey_core_agent.Server.Location.{Beneath}
use odyssey_core_agent.Server.Handler.{
  invalid_argument, internal, outside_root, bad_config, no_runner, Reply, refuse, Server, answer,
}

-- The path lies in the project root, if there is one.
abbrev pub Admitted : Server → String → Type 0
Admitted s path = (s.project_root ≡ "") ⊎ Beneath s.getwd s.project_root path

-- How a request is answered: a path outside the project root is refused before any file is read; so is
-- a project whose files describe no pipeline; without a runner nothing is run; and otherwise the
-- pipeline that the files describe is run. A refused request emits no event.
pub data Served (s : Server) (path : String) (b : Bus) (reply : Reply × Bus) : Type 0 where
  outside :
      (Admitted s path → ⊥)
      → reply ≡ refuse invalid_argument (outside_root path) b
      → Served s path b reply
  undescribed :
      (why : Failure)
      → Admitted s path
      → ((pipeline : Pipeline) → Describes s.files path pipeline → ⊥)
      → reply ≡ refuse invalid_argument (bad_config why) b
      → Served s path b reply
  unequipped :
      (pipeline : Pipeline)
      → Admitted s path
      → Describes s.files path pipeline
      → s.has_runner ≡ false
      → reply ≡ refuse internal no_runner b
      → Served s path b reply
  served :
      (pipeline : Pipeline)
      → Admitted s path
      → Describes s.files path pipeline
      → s.has_runner ≡ true
      → reply ≡ answer s pipeline b
      → Served s path b reply
