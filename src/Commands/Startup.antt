-- ===== src/Commands/Startup.antt =====
-- cmd/server/main.go: how the server starts, and how it ends.
use Prim.Native.String.{◌++◌}
use odyssey_core_agent.Prelude.{
  ℕ, String, Bool, true, false, Option, none, some, pos, ◌==◌, if◌then◌else◌,
}
use odyssey_core_agent.Prelude.Error.{Error, Result, ok, err}
use odyssey_core_agent.Prelude.Decimal.{format_nat}
use odyssey_core_agent.Consumer.Options.{Options, new}

-- `listenAddr`
unfoldable pub listen_addr : String → String
listen_addr env = if env == "" then "localhost:50051" else env

unfoldable pub results_path : String → String
results_path env = if env == "" then "odyssey-results.db" else env

-- `instanceName`, told what `os.Hostname` and `os.Getpid` return.
unfoldable pub instance_name : Result String → ℕ → String
unfolding format_nat
instance_name (err e) pid = "unknown-" ++ format_nat pid
instance_name (ok host) pid = host ++ "-" ++ format_nat pid

-- The options of the results recorder.
unfoldable pub recorder_options : String → Options
recorder_options name = record {
  group = "results-recorder";
  consumer = name;
  stream = "";
  min_idle = 0;
  max_attempts = pos 0;
  block = 0;
}

pub data Level : Type 0 where
  debug info : Level

pub data Format : Type 0 where
  text json : Format

-- `newLogger`, told `ODYSSEY_ENV` and `ODYSSEY_LOG_FORMAT`.
unfoldable pub new_logger : String → String → Level × Format
new_logger env format =
    (if env == "production" then info else debug, if format == "json" then json else text)

-- What the server meets: the environment, and how the calls of the system and of the
-- libraries end.
pub record Surroundings : Type 0 where
  pub getenv : String → String
  pub listen : String → Option Error
  pub open_results : String → Option Error
  pub new_runner : Option Error
  pub serve : String → Option Error
  pub hostname : Result String
  pub pid : ℕ

-- The results recorder: its database and its consumer.
pub record Recorder : Type 0 where
  pub database : String
  pub consumer : Options

-- What serves: at this address, with this Redis server as the event bus, if there is one, and then
-- with the recorder.
pub record Serving : Type 0 where
  pub addr : String
  pub bus : Option String
  pub recorder : Option Recorder

-- Why the server exits with code 1.
pub data Exit : Type 0 where
  cannot_listen cannot_open_results cannot_build_recorder cannot_create_runner : Exit
  serve_failed : Serving → Exit

-- How `main` ends: with an exit, or behind a `Serve` that was stopped in order.
pub data Start : Type 0 where
  exited : Exit → Start
  stopped : Serving → Start

-- The end of `main`, once `Serve` returned.
unfoldable pub with_server : Option Error → Serving → Start
with_server (some e) s = exited (serve_failed s)
with_server none s = stopped s

-- `main`, once the runner is created or not.
unfoldable pub with_runner : Surroundings → Option Error → Serving → Start
unfolding with_server
with_runner o (some e) s = exited cannot_create_runner
with_runner o none s = with_server (o.serve s.addr) s

-- `main`, once the recorder's consumer is built or not.
unfoldable pub with_recorder : Surroundings → String → String → String → Result Options → Start
unfolding with_runner
with_recorder o addr redis path (err e) = exited cannot_build_recorder
with_recorder o addr redis path (ok opts) = with_runner o o.new_runner (record {
  addr = addr;
  bus = some redis;
  recorder = some (record { database = path; consumer = opts });
})

-- `main`, once the results database is opened or not.
unfoldable pub with_results : Surroundings → String → String → String → Option Error → Start
unfolding with_recorder new recorder_options instance_name
with_results o addr redis path (some e) = exited cannot_open_results
with_results o addr redis path none =
    with_recorder o addr redis path
      (new false false (recorder_options (instance_name o.hostname o.pid)))

-- `main`, once it is known whether the event bus is disabled.
unfoldable pub with_bus : Surroundings → String → String → Bool → Start
unfolding with_runner with_results results_path
with_bus o addr redis true =
    with_runner o o.new_runner (record { addr = addr; bus = none; recorder = none })
with_bus o addr redis false =
    let path = results_path (o.getenv "ODYSSEY_RESULTS_DB") in
    with_results o addr redis path (o.open_results path)

-- `main`, once the server listens or not.
unfoldable pub with_listener : Surroundings → String → Option Error → Start
unfolding with_bus
with_listener o addr (some e) = exited cannot_listen
with_listener o addr none =
    let redis = o.getenv "ODYSSEY_REDIS_ADDR" in with_bus o addr redis (redis == "")

-- `main` of cmd/server.
unfoldable pub start : Surroundings → Start
unfolding with_listener listen_addr
start o = let addr = listen_addr (o.getenv "ODYSSEY_ADDR") in with_listener o addr (o.listen addr)
