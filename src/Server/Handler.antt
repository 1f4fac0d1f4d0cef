-- ===== src/Server/Handler.antt =====
-- `Server.RunPipeline` of internal/server/server.go.
use odyssey_core_agent.Prelude.{
  String, Bool, true, false, ◌&&◌, not, [], Option, none, some, pos, ◌==◌,
}
use odyssey_core_agent.Prelude.Error.{Error, Result}
use odyssey_core_agent.Domain.Pipeline.{Pipeline}
use odyssey_core_agent.Config.Load.{Files, Failure, Loaded, loaded, failed, load}
use odyssey_core_agent.Orchestrator.Bus.{Bus}
use odyssey_core_agent.Orchestrator.Run.{World, run}
use odyssey_core_agent.Server.Paths.{project_path_allowed}
use odyssey_core_agent.Server.Messages.{Response, status_unspecified, response_of}

-- The messages of the errors: "project_path %q is outside the configured project root", "failed to load
-- config: %v" and "no runner configured".
pub data Refusal : Type 0 where
  outside_root : String → Refusal
  bad_config : Failure → Refusal
  no_runner : Refusal

pub data Code : Type 0 where
  invalid_argument internal : Code

-- `status.Errorf(code, ...)`
pub record StatusError : Type 0 where
  pub code : Code
  pub why : Refusal

-- What a call returns: a response and an error.
pub record Reply : Type 0 where
  pub response : Response
  pub error : Option StatusError

-- `&odysseyv1.RunPipelineResponse{}`
abbrev pub empty_response : Response
empty_response = record {
  pipeline_name = "";
  status = status_unspecified;
  stage_results = [];
  duration_ms = pos 0;
}

abbrev pub refuse : Code → Refusal → Bus → Reply × Bus
refuse code why b =
    (record { response = empty_response; error = some (record { code = code; why = why }) }, b)

-- What the server finds outside of itself: the configured project root, empty if there is none, the
-- working directory, the files, how errors are rendered, whether it has a runner, and what happens
-- while a pipeline runs.
pub record Server : Type 0 where
  pub project_root : String
  pub getwd : Result String
  pub files : Files
  pub render : Error → String
  pub has_runner : Bool
  pub world : World

-- The run and its response.
unfoldable pub answer : Server → Pipeline → Bus → Reply × Bus
unfolding response_of run
answer s pipeline b =
    let (result, after) = run s.world pipeline b in
    (record { response = response_of s.render result; error = none }, after)

-- `RunPipeline`, once it is known whether there is a runner.
unfoldable pub run_equipped : Server → Pipeline → Bus → Bool → Reply × Bus
unfolding answer
run_equipped s pipeline b true = answer s pipeline b
run_equipped s pipeline b false = refuse internal no_runner b

-- `RunPipeline`, once the configuration is loaded or not.
unfoldable pub run_loaded : Server → Loaded → Bus → Reply × Bus
unfolding run_equipped
run_loaded s (failed why) b = refuse invalid_argument (bad_config why) b
run_loaded s (loaded pipeline) b = run_equipped s pipeline b s.has_runner

-- `root != "" && !projectPathAllowed(root, request.ProjectPath)`
unfoldable pub is_outside : Server → String → Bool
is_outside s path =
    not (s.project_root == "") && not (project_path_allowed s.getwd s.project_root path)

-- `RunPipeline`, once the path is checked.
unfoldable pub run_checked : Server → String → Bus → Bool → Reply × Bus
unfolding run_loaded load
run_checked s path b true = refuse invalid_argument (outside_root path) b
run_checked s path b false = run_loaded s (load s.files path) b

-- `RunPipeline`
unfoldable pub run_pipeline : Server → String → Bus → Reply × Bus
unfolding run_checked is_outside project_path_allowed
run_pipeline s path b = run_checked s path b (is_outside s path)
