-- ===== src/Runner/Container.antt =====
-- internal/runner/docker.go: the container of a job and the commands in it.
use Prim.Native.String.{◌++◌ as str_append}
use odyssey_core_agent.Prelude.{ℕ, ℤ, String, List, [], ◌∷◌, ◌++◌, Option, none, some}
use odyssey_core_agent.Prelude.Error.{Error, errorf, wrapf, wrap_both, Result, ok, err}
use odyssey_core_agent.Prelude.State.{Action, ◌>>=◌, ◌>>◌, pure}
use odyssey_core_agent.Domain.Status.{ExitCode, exit_none}
use odyssey_core_agent.Domain.Pipeline.{Job}
use odyssey_core_agent.Runner.Docker.{Context, run_context, CreateOptions, ExecOptions, Docker}
use odyssey_core_agent.Runner.EnvFile.{env_file_path, env_file_var, env_slice}
use odyssey_core_agent.Runner.Session.{
  created, copied, started, executed, removed, Session, ask, log_call,
}

abbrev pub work_dir : String
work_dir = "/app"

-- What `execCommand` returns; `err` is its error, and on an error the other parts are as here.
pub record ExecResult : Type 0 where
  pub exit_code : ExitCode
  pub stdout : String
  pub stderr : String
  pub err : Option Error

unfoldable pub exec_failed : Error → ExecResult
exec_failed e = record { exit_code = exit_none; stdout = ""; stderr = ""; err = some e }

-- The environment that the container is created with.
unfoldable pub container_env : Job → List String
container_env job = env_slice job.env ++ str_append env_file_var (str_append "=" env_file_path) ∷ []

unfoldable pub create_options : Job → CreateOptions
create_options job = record {
  image = job.image;
  env = container_env job;
  labels = ("odyssey.job", job.name) ∷ [];
  working_dir = work_dir;
  cmd = "sh" ∷ "-c" ∷ "tail -f /dev/null" ∷ [];
}

-- A mount's error, with that of the removal that follows it.
unfoldable pub unmounted : Error → Option Error → Error
unmounted e none = e
unmounted e (some r) = wrap_both "%w; additionally, failed to remove container: %w" e r

module _ {d : Docker} where
  -- `pullImage`, once the pull is accepted or not.
  unfoldable pub after_pull_request : Option Error → Action (Session d) (Option Error)
  after_pull_request (some e) = pure (some e)
  after_pull_request none = ask d.drain

  unfoldable pub pull_image : String → Action (Session d) (Option Error)
  pull_image img = do e ← ask (λ w. d.image_pull w img); after_pull_request e

  unfoldable pub remove_container : Context → String → Action (Session d) (Option Error)
  remove_container ctx id = do log_call (removed ctx id); ask (λ w. d.container_remove w ctx id)

  -- `mountArchive`, once the archive is made.
  unfoldable pub after_archive :
      String → String → Result (List ℕ) → Action (Session d) (Option Error)
  after_archive id destination (err e) = pure (some e)
  after_archive id destination (ok []) = pure (some (errorf "cannot mount an empty archive" []))
  after_archive id destination (ok (b ∷ bs)) = do
    log_call (copied id)
    ask (λ w. d.copy_to_container w id destination (b ∷ bs))

  unfoldable pub mount_archive : String → String → String → Action (Session d) (Option Error)
  mount_archive id project_path destination = do
    archive ← ask (λ w. d.create_tar w project_path)
    after_archive id destination archive

  -- The rest of `createContainer`, once the archive is mounted or failed to be.
  unfoldable pub after_mount : String → Option Error → Action (Session d) (Result String)
  after_mount id none = pure (ok id)
  after_mount id (some e) = do
    r ← remove_container run_context id
    pure (err (wrapf "failed to mount project path to container: %w" [] (unmounted e r)))

  -- The rest of `createContainer`, once the client has answered.
  unfoldable pub after_create : String → Result String → Action (Session d) (Result String)
  after_create project_path (err e) = pure (err e)
  after_create project_path (ok id) = do
    log_call (created id)
    m ← mount_archive id project_path work_dir
    after_mount id m

  unfoldable pub create_container : Job → String → Action (Session d) (Result String)
  create_container job project_path = do
    r ← ask (λ w. d.container_create w (create_options job))
    after_create project_path r

  -- `execCommand`, once the process was asked for its exit code.
  unfoldable pub after_inspect : String × String → Result ℤ → Action (Session d) ExecResult
  after_inspect out (err e) = pure (exec_failed e)
  after_inspect out (ok code) =
      pure (record { exit_code = code; stdout = out.0; stderr = out.1; err = none })

  -- `execCommand`, once the output is read.
  unfoldable pub after_copy :
      Context → String → Result (String × String) → Action (Session d) ExecResult
  after_copy ctx exec_id (err e) = pure (exec_failed e)
  after_copy ctx exec_id (ok out) = do
    code ← ask (λ w. d.exec_inspect w ctx exec_id)
    after_inspect out code

  -- `execCommand`, once the output is attached.
  unfoldable pub after_attach : Context → String → Result d.Stream → Action (Session d) ExecResult
  after_attach ctx exec_id (err e) = pure (exec_failed e)
  after_attach ctx exec_id (ok stream) = do
    out ← ask (λ w. d.std_copy w stream)
    after_copy ctx exec_id out

  -- `execCommand`, once the command is created.
  unfoldable pub after_exec_create : Context → Result String → Action (Session d) ExecResult
  after_exec_create ctx (err e) = pure (exec_failed e)
  after_exec_create ctx (ok exec_id) = do
    a ← ask (λ w. d.exec_attach w ctx exec_id)
    after_attach ctx exec_id a

  unfoldable pub exec_command :
      Context → String → String → List String → Action (Session d) ExecResult
  exec_command ctx id command env = do
    let opts : ExecOptions = record { cmd = "sh" ∷ "-c" ∷ command ∷ []; env = env }
    log_call (executed ctx id opts)
    r ← ask (λ w. d.exec_create w ctx id opts)
    after_exec_create ctx r

  unfoldable pub start_container : String → Action (Session d) (Option Error)
  start_container id = do log_call (started id); ask (λ w. d.container_start w id)
