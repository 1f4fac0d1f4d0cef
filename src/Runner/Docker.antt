-- ===== src/Runner/Docker.antt =====
-- The Docker client, the file system and the clock as internal/runner/docker.go sees them. None of
-- this code is in the repository: every operation is a parameter, and its answer and its effect on
-- the world outside are free.
use odyssey_core_agent.Prelude.{ℕ, String, List, Option, ℤ, Map}
use odyssey_core_agent.Prelude.Error.{Error, Result}

-- Which context a call is given: that of the run, that of a step with a timeout in milliseconds, or
-- the one of teardown, which the run's cancellation does not reach.
pub data Context : Type 0 where
  run_context teardown_context : Context
  step_context : ℤ → Context

-- `client.ContainerCreateOptions`, as far as it is set.
pub record CreateOptions : Type 0 where
  pub image : String
  pub env : List String
  pub labels : Map String
  pub working_dir : String
  pub cmd : List String

-- `client.ExecCreateOptions`, as far as it varies.
pub record ExecOptions : Type 0 where
  pub cmd : List String
  pub env : List String

pub record Docker : Type 1 where
  pub World : Type 0
  -- The attached output of a command.
  pub Stream : Type 0
  pub image_pull : World → String → Option Error × World
  -- Reading the body of the answer to a pull to its end.
  pub drain : World → Option Error × World
  pub container_create : World → CreateOptions → Result String × World
  -- `common.CreateTar`: the archive's bytes.
  pub create_tar : World → String → Result (List ℕ) × World
  pub copy_to_container : World → String → String → List ℕ → Option Error × World
  pub container_start : World → String → Option Error × World
  pub container_remove : World → Context → String → Option Error × World
  pub exec_create : World → Context → String → ExecOptions → Result String × World
  pub exec_attach : World → Context → String → Result Stream × World
  -- `stdcopy.StdCopy`: the standard output and the standard error, read to their ends.
  pub std_copy : World → Stream → Result (String × String) × World
  pub exec_inspect : World → Context → String → Result ℤ × World
  -- `ctx.Err()` of the run's context.
  pub ctx_err : World → Option Error
  -- The clock, in nanoseconds.
  pub now : World → ℕ × World
