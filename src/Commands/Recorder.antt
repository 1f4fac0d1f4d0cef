-- ===== src/Commands/Recorder.antt =====
-- The results recorder of cmd/server/main.go: the consumer of internal/consumer/consumer.go with
-- `Store.Record` of internal/results/store.go as its handler.
use odyssey_core_agent.Prelude.{ℕ, String, ◌≡◌, sym, subst}
use odyssey_core_agent.Domain.Pipeline.{Event}
use odyssey_core_agent.Bus.Redis.{AddArgs, ReadArgs, ClaimArgs, PendingArgs, Redis}
use odyssey_core_agent.Consumer.Options.{Options}
use odyssey_core_agent.Consumer.Session.{Session, Handler}
use odyssey_core_agent.Consumer.Loop.{run}
use odyssey_core_agent.Consumer.Worlds.{Respected, run-Later}
use odyssey_core_agent.Results.Tables.{Tables}
use odyssey_core_agent.Results.Rows.{Faults}
use odyssey_core_agent.Results.Store.{record_event}
use odyssey_core_agent.Results.Schema.{IsSound}
use odyssey_core_agent.Results.Integrity.{record_event-IsSound}

-- The recorder's database in the world outside, with the faults of the next call. Nobody else writes
-- to it: no operation of Redis and no wait changes its tables.
pub record Database (r : Redis) : Type 0 where
  pub tables : r.World → Tables
  pub write : Tables → r.World → r.World
  pub faults : r.World → Faults
  pub written : (t : Tables) (w : r.World) → tables (write t w) ≡ t
  pub x_group_create :
      (w : r.World) (stream group start : String)
      → tables (r.x_group_create w stream group start).1 ≡ tables w
  pub x_read_group : (w : r.World) (args : ReadArgs) → tables (r.x_read_group w args).1 ≡ tables w
  pub x_auto_claim : (w : r.World) (args : ClaimArgs) → tables (r.x_auto_claim w args).1 ≡ tables w
  pub x_pending : (w : r.World) (args : PendingArgs) → tables (r.x_pending w args).1 ≡ tables w
  pub x_range :
      (w : r.World) (stream start stop : String)
      → tables (r.x_range w stream start stop).1 ≡ tables w
  pub x_add : (w : r.World) (args : AddArgs) → tables (r.x_add w args).1 ≡ tables w
  pub x_ack :
      (w : r.World) (stream group id : String) → tables (r.x_ack w stream group id).1 ≡ tables w
  pub wait : (w : r.World) (period : ℕ) → tables (r.wait w period).1 ≡ tables w

module _ (r : Redis) (db : Database r) (stamp : ℕ → String) where
  -- `resultsStore.Record` as a handler.
  unfoldable pub record_handler : Handler r
  unfolding record_event
  record_handler w event =
      let (e, t) = record_event stamp (db.faults w) event (db.tables w) in (e, db.write t w)

  -- What is sound before an operation is sound behind it.
  abbrev KeptSound : r.World → r.World → Type 0
  KeptSound w v = IsSound (db.tables w) → IsSound (db.tables v)

  left : (w v : r.World) → db.tables v ≡ db.tables w → KeptSound w v
  left w v h = subst IsSound (sym h)

  record_handler-KeptSound : (w : r.World) (event : Event) → KeptSound w (record_handler w event).1
  unfolding record_handler
  record_handler-KeptSound w event sound =
      subst IsSound (sym (db.written _ w))
        (record_event-IsSound stamp (db.faults w) event (db.tables w) sound)

  kept : Respected r record_handler KeptSound
  kept = record {
    same = λ w h. h;
    in_turn = λ u v w f g h. g (f h);
    x_group_create = λ w stream group start. left w _ (db.x_group_create w stream group start);
    x_read_group = λ w args. left w _ (db.x_read_group w args);
    x_auto_claim = λ w args. left w _ (db.x_auto_claim w args);
    x_pending = λ w args. left w _ (db.x_pending w args);
    x_range = λ w stream start stop. left w _ (db.x_range w stream start stop);
    x_add = λ w args. left w _ (db.x_add w args);
    x_ack = λ w stream group id. left w _ (db.x_ack w stream group id);
    wait = λ w period. left w _ (db.wait w period);
    handling = record_handler-KeptSound;
  }

  -- If nobody else writes to the recorder's tables, then whatever Redis delivers, in whatever order
  -- and however often, and whichever calls of the database fail, the tables obey the schema after any
  -- number of rounds of the recorder, if they did before.
  pub run-record_handler :
      (opts : Options) (pages n : ℕ) (s : Session r)
      → IsSound (db.tables s.world)
      → IsSound (db.tables (run record_handler opts pages n s).1.world)
  run-record_handler opts pages n s = run-Later record_handler opts KeptSound kept pages n s
