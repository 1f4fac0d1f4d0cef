-- ===== src/Commands/EventsLogger.antt =====
-- cmd/events-logger/main.go: the consumer of internal/consumer/consumer.go that prints what it handles.
use Prim.Native.String.{◌++◌ as ◌<>◌}
use odyssey_core_agent.Prelude.{ℕ, String, false, List, [], ◌∷◌, ◌++◌, none, some, pos, ◌≡◌}
use odyssey_core_agent.Prelude.Error.{Result, ok, err}
use odyssey_core_agent.Domain.Pipeline.{Event}
use odyssey_core_agent.Bus.Redis.{AddArgs, ReadArgs, ClaimArgs, PendingArgs, Redis}
use odyssey_core_agent.Consumer.Options.{Options, new}
use odyssey_core_agent.Consumer.Session.{Session, Handler}
use odyssey_core_agent.Consumer.Loop.{Progress, running, returned, run}
use odyssey_core_agent.Commands.Startup.{instance_name}

unfoldable pub event_line : Event → String
event_line e =
    "type=" <> e.type <> " pipeline=" <> e.pipeline <> " job=" <> e.job <> " step=" <> e.step
    <> "\n"

-- The standard output in the world outside. Nobody else writes to it: no operation of Redis and no wait
-- changes what was printed.
pub record Console (r : Redis) : Type 0 where
  pub printed : r.World → List String
  pub print : String → r.World → r.World
  pub shown : (text : String) (w : r.World) → printed (print text w) ≡ printed w ++ text ∷ []
  pub x_group_create :
      (w : r.World) (stream group start : String)
      → printed (r.x_group_create w stream group start).1 ≡ printed w
  pub x_read_group : (w : r.World) (args : ReadArgs) → printed (r.x_read_group w args).1 ≡ printed w
  pub x_auto_claim :
      (w : r.World) (args : ClaimArgs) → printed (r.x_auto_claim w args).1 ≡ printed w
  pub x_pending : (w : r.World) (args : PendingArgs) → printed (r.x_pending w args).1 ≡ printed w
  pub x_range :
      (w : r.World) (stream start stop : String)
      → printed (r.x_range w stream start stop).1 ≡ printed w
  pub x_add : (w : r.World) (args : AddArgs) → printed (r.x_add w args).1 ≡ printed w
  pub x_ack :
      (w : r.World) (stream group id : String) → printed (r.x_ack w stream group id).1 ≡ printed w
  pub wait : (w : r.World) (period : ℕ) → printed (r.wait w period).1 ≡ printed w

-- The options of the consumer, with the group of the flag.
unfoldable pub logger_options : String → Result String → ℕ → Options
unfolding instance_name
logger_options group hostname pid = record {
  group = group;
  consumer = instance_name hostname pid;
  stream = "";
  min_idle = 0;
  max_attempts = pos 0;
  block = 0;
}

-- What the program comes to, for the rounds given: it is still running, or it has ended with this code.
pub data Ending : Type 0 where
  still_running : Ending
  ended : ℕ → Ending

-- `main`, once `Run` returned or not.
unfoldable pub after_run : Progress → Ending
after_run running = still_running
after_run (returned none) = ended 0
after_run (returned (some e)) = ended 1

module _ (r : Redis) (c : Console r) where
  -- `printEvent`
  unfoldable pub print_event : Handler r
  unfolding event_line
  print_event w event = (none, c.print (event_line event) w)

  -- `main`, once the consumer is built or not, for a number of rounds and of pages in each.
  unfoldable pub with_consumer : ℕ → ℕ → Session r → Result Options → Ending × Session r
  unfolding run after_run print_event
  with_consumer pages n s (err e) = (ended 1, s)
  with_consumer pages n s (ok opts) =
      let (progress, t) = run print_event opts pages n s in (after_run progress, t)

  -- `main`
  unfoldable pub logger_main : String → Result String → ℕ → ℕ → ℕ → Session r → Ending × Session r
  unfolding with_consumer new logger_options
  logger_main group hostname pid pages n s =
      with_consumer pages n s (new false false (logger_options group hostname pid))
