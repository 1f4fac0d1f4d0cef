-- ===== src/Commands/Client.antt =====
-- cmd/client/main.go: one request, and the print of its response.
use Prim.Native.String.{◌++◌ as ◌<>◌}
use odyssey_core_agent.Prelude.{
  ℕ, String, List, [], ◌∷◌, ◌++◌, Option, none, some, ◌==◌, if◌then◌else◌,
}
use odyssey_core_agent.Prelude.Error.{Error, Result, ok, err}
use odyssey_core_agent.Prelude.Decimal.{format_int}
use odyssey_core_agent.Server.Messages.{
  StatusMessage, StepMessage, JobMessage, StageMessage, Response,
}

-- What the client printed, one text for each call, and its exit code.
pub record Output : Type 0 where
  pub stdout : List String
  pub stderr : List String
  pub exit_code : ℕ

-- `fmt.Printf("        LABEL: %s\n", text)`, if there is a text.
unfoldable pub print_text : String → String → List String
print_text label text =
    if text == "" then [] else ("        " <> label <> ": " <> text <> "\n") ∷ []

-- How a status and an error are rendered are parameters: the generated code and the gRPC library do it.
module _ (show : StatusMessage → String) where
  unfoldable pub print_step : StepMessage → List String
  unfolding print_text format_int
  print_step s =
      ("      Step: "
          <> s.step_name
          <> "  Exit: "
          <> format_int s.exit_code
          <> "  Status: "
          <> show s.status
          <> "\n")
        ∷ print_text "stdout" s.stdout
      ++ print_text "stderr" s.stderr
      ++ print_text "error" s.error

  unfoldable pub print_steps : List StepMessage → List String
  unfolding print_step
  print_steps [] = []
  print_steps (s ∷ ss) = print_step s ++ print_steps ss

  unfoldable pub print_jobs : List JobMessage → List String
  unfolding print_steps
  print_jobs [] = []
  print_jobs (j ∷ js) =
      ("    Job: " <> j.job_name <> "  Status: " <> show j.status <> "\n")
        ∷ print_steps j.step_results
      ++ print_jobs js

  unfoldable pub print_stages : List StageMessage → List String
  unfolding print_jobs
  print_stages [] = []
  print_stages (s ∷ ss) =
      ("  Stage: " <> s.stage_name <> "  Status: " <> show s.status <> "\n")
        ∷ print_jobs s.job_results
      ++ print_stages ss

  unfoldable pub print_response : Response → List String
  unfolding print_stages
  print_response r =
      ("Pipeline: " <> r.pipeline_name <> "  Status: " <> show r.status <> "\n")
      ∷ print_stages r.stage_results

  module _ (render : Error → String) where
    -- `main`, once the server has answered or not.
    unfoldable pub with_answer : Result Response → Output
    unfolding print_response
    with_answer (err e) = record {
      stdout = [];
      stderr = ("error: " <> render e <> "\n") ∷ [];
      exit_code = 1;
    }
    with_answer (ok r) = record { stdout = print_response r; stderr = []; exit_code = 0 }

    -- `main`, once the client of the API is made or not.
    unfoldable pub with_connection : (String → Result Response) → String → Option Error → Output
    unfolding with_answer
    with_connection request path (some e) = record {
      stdout = [];
      stderr = ("dial: " <> render e <> "\n") ∷ [];
      exit_code = 1;
    }
    with_connection request path none = with_answer (request path)

    -- `main`, told how the client of the API is made, how a request ends, and the arguments behind the
    -- flags.
    unfoldable pub main : Option Error → (String → Result Response) → List String → Output
    unfolding with_connection
    main dial request [] = record {
      stdout = [];
      stderr = "usage: odyssey-client [-addr HOST:PORT] <project-path>\n" ∷ [];
      exit_code = 2;
    }
    main dial request (path ∷ others) = with_connection request path dial
