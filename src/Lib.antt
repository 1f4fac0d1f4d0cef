-- ===== src/Lib.antt =====
-- odyssey-core-agent runs the CI pipelines of a project: it reads a configuration, checks it and
-- translates it into stages of jobs (internal/config), runs the stages in turn and the jobs of a
-- stage at once (internal/orchestrator), runs each job in a Docker container of its own
-- (internal/runner), answers its caller with the result tree (internal/domain, internal/server),
-- and publishes the lifecycle events to an event bus (internal/bus), from which a consumer
-- (internal/consumer) hands them to a recorder that writes them to a database (internal/results).
--
-- Parts and files:
-- - Prelude: shared names of the libraries, lists measured by native numbers, Go's maps as
--   association lists, sorting of texts, decimal printing, errors as values, state actions, and
--   interleavings. `Prelude.Error` keeps an error as the way it was made, so that `errors.Is` can
--   be computed.
-- - Domain: internal/domain. `Domain.Status` has Status, ExitCode, statusRank and worstStatus;
--   `Domain.Result` the result tree with its Status and Duration methods; `Domain.Pipeline` what
--   is run, and the Event. `Domain.Worst`, `Domain.Verdict` and `Domain.Elapsed` are proofs.
-- - Config: internal/config. `Config.Models` has the decoded files and RootConfig.Validate,
--   `Config.Loader` translate and mergeEnv, and `Config.Load` Load and loadEnv; `Common` is
--   ReadToml of internal/common/utils.go, told what the TOML library decodes. `Config.Validity`
--   describes a valid configuration without the code's maps and loops; `Config.Checks`,
--   `Config.Stages` and `Config.Acceptance` relate it to Validate, `Config.Translation` and
--   `Config.Delivery` are about translate, and `Config.Sources` says what files Load accepts.
-- - Runner: internal/runner. `Runner.EnvFile` is envfile.go. Of docker.go, `Runner.Container` has
--   pullImage, createContainer, removeContainer, mountArchive and execCommand, `Runner.Steps` has
--   runSteps with stepFinishedEvent and readExportedEnv, and `Runner.Job` has runSetup and
--   DockerRunner.Run as `run_job`. Each of them is an action on a `Session`: the world outside,
--   the container calls made, the events handed to the sink, and the exported names that were
--   logged. `Runner.Docker` is the world: a record of the Docker client's operations, the tar
--   archive, the clock and ctx.Err(), each free in its answer and in its effect, and so is a call
--   of the event sink. Where the code returns early, a helper named `after_...` has one clause for
--   each way to go on.
-- - Orchestrator: internal/orchestrator/orchestrator.go. `Orchestrator.Bus` has emit, the stamped
--   sink and newRunID, `Orchestrator.Stage` has runStage, and `Orchestrator.Run` has Run. A
--   goroutine of runStage is a `Worker` whose moves are those of the code that others can see: it
--   announces the job, passes on each event of the runner, announces the end, and stores the
--   result in its slot. A schedule, any list of worker numbers, says who moves next; `wait` then
--   lets every worker finish, as g.Wait does. The world of a run is told by what it answered in
--   that run: the runner's answers, the sink's, and the instants, each an input of its own.
-- - Results: internal/results/store.go and its migration. `Results.Tables` has the three tables
--   and the statements of the store (INSERT ... ON CONFLICT DO NOTHING, UPDATE, SELECT id) with
--   the meaning that SQLite documents, `Results.Numbers` Go's integer parsing, `Results.Rows`
--   runRow, jobRow and the parsed payload, and `Results.Store` the handlers of Store.Record as
--   `record_event`. `Faults` says which query or statement of the call fails.
-- - Bus: internal/bus/bus.go. `Bus.Redis` is the Redis client with the JSON codec, the context and
--   the timer, a record of operations on the world outside, each free in its answer and its
--   effect; `Bus.Publisher` has Publish.
-- - Consumer: internal/consumer/consumer.go. `Consumer.Options` has New and its defaults,
--   `Consumer.Entry` handle, recoverOne, deadLetter and deadLetterEntry, and `Consumer.Loop`
--   ensureGroup, recoverStuck and Run. They are actions on a `Session`: the world outside, and a
--   log of what happened to which entry, in the order of the code, with the entry that was taken
--   up, the answer of XRANGE and the arguments of XADD. A helper named `after_...` has one clause
--   for each way to go on behind a call. `Consumer.Outcomes`, `Consumer.Reading`, `Consumer.Fate`
--   and `Consumer.Acks` are about the entries, `Consumer.Delivery` about what Publish added,
--   `Consumer.Scan` and `Consumer.Shutdown` about the end of the loops; `Consumer.Steps`,
--   `Consumer.Rounds` and `Consumer.Worlds` carry a relation from single calls to Run.
-- - Filepath: the functions of Go's path/filepath that the code calls, on Unix.
-- - Server: internal/server. `Server.Paths` is path.go, `Server.Messages` mapping.go and
--   `Server.Handler` RunPipeline. `Server.Location` says where a path leads by walking it, without
--   Clean, Rel and text prefixes; `Server.Segments`, `Server.Ways`, `Server.Places` and
--   `Server.Confinement` relate the two. `Server.Admission` and `Server.Tree` are about requests
--   and responses.
-- - Commands: `Commands.Startup` is main of cmd/server/main.go, told how each call of the system
--   ends, Serve among them, and what the environment is once a .env file is read;
--   `Commands.Readiness` is about it. `Commands.Recorder` is the recorder that it runs beside the
--   server, the consumer with Store.Record as its handler. `Commands.Client` is
--   cmd/client/main.go, told how the request ends; `Commands.EventsLogger` is
--   cmd/events-logger/main.go, the same consumer with a handler that prints, on a console which
--   nobody else writes to; `Commands.Printing` is about it.
-- - Scenarios: the theorems on concrete inputs.
--
-- The other modules under Runner, Orchestrator and Results hold proofs: `Runner.Growth`,
-- `Runner.Lifecycle`, `Runner.Endings`, `Runner.Outcome` and `Runner.Verdict` are about jobs,
-- `Runner.Exports` and `Runner.Novelty` about the env file; `Orchestrator.Results`,
-- `Orchestrator.FailFast`, `Orchestrator.Journal` and `Orchestrator.Interleaving` about runs;
-- `Results.Statements`, `Results.Redelivery`, `Results.Failure`, `Results.Keys`, `Results.Schema`,
-- `Results.Integrity`, `Results.Decimals`, `Results.StepRows`, `Results.Selection`,
-- `Results.Known` and `Results.Sequence` about the store.
--
-- The parts meet in data: `translate` gives the `Pipeline` that `run` takes; `run` asks the runner
-- for an `Answer` to each job (its JobResult, its error and the events that it hands to its sink),
-- which is free here, as Runner is an interface in the code too; `run_job` is the implementation.
-- `run_pipeline` loads a configuration and gives the pipeline to `run`. The events are published
-- by `publish` as entries of a stream, whose messages `handle` gives to a handler:
-- `record_handler` is the store's `record_event` on the tables of the world outside.
--
-- Bounds: numbers are unbounded, but a time.Duration is a 64-bit pattern that wraps around, as do
-- its sums. The loops recurse on their lists, and a worker is given the number of moves that its
-- phase leaves it. The only fuel is that of decimal printing: n + 1 for the number n, of which
-- each digit takes one, and n has no more digits than that. Run of the consumer is given a number
-- of rounds and of pages for each scan of the stuck entries, and says whether it returned or would
-- go on; `Consumer.Scan` and `Consumer.Shutdown` say how many of each are enough. An exit code is
-- cut to 32 bits on its way to the caller. A map is an association list in the order of one
-- iteration; theorems that need a key to stand once say so by `IsMap`. The rendering of an instant
-- as text is a parameter of the store. The text functions of the standard library that the code
-- uses (TrimSpace, Cut, SplitSeq, sort.Strings) are written out.
--
-- Not modelled: opening and migrating the database; CreateTar of internal/common and the logger in
-- a context; logging, except for the exported names, whose selection is the code's own; signals
-- and the gRPC library in cmd/server, flags and the timeout in cmd/client, flags and signals in
-- cmd/events-logger; the generated code under gen. Symbolic links are not resolved by path.go, nor
-- here. The recorder and the server run at the same time in the code, and meet only in Redis. The
-- deadline of the teardown context is not a part of the model, only that it is not the run's. A
-- goroutine's panic and the random bytes of a run id are outside too: the bytes are an input.
pub mod Prelude
pub mod Domain
pub mod Config
pub mod Runner
pub mod Orchestrator
pub mod Bus
pub mod Consumer
pub mod Filepath
pub mod Common
pub mod Server
pub mod Commands
pub mod Results
pub mod Scenarios
