-- ===== src/Scenarios/Entries.antt =====
-- The theorems on the consumer of internal/consumer/consumer.go, at the streams of Scenarios/Streams.
use odyssey_core_agent.Prelude.{true, [], ◌∷◌, none, some, pos, ◌≡◌, refl, arith, lookup}
use odyssey_core_agent.Prelude.Error.{external}
use odyssey_core_agent.Bus.Publisher.{envelope_of, publish}
use odyssey_core_agent.Consumer.Session.{
  counted, taken_up, handled, looked_up, dead_lettered, acked, Handler, call, note,
}
use odyssey_core_agent.Consumer.Entry.{
  dead_args, pending_args, as_text, envelope, is_exhausted, ack, add_copy, after_dead,
  dead_letter_entry, text_or_empty, after_range, dead_letter, after_handler, after_decode,
  after_envelope, handle, recover_or_bury, after_pending, recover_one,
}
use odyssey_core_agent.Consumer.Loop.{
  returned, contains, tolerate_existing, claim_args, read_args, ensure_group, recover_all,
  next_page, after_claim, recover_stuck, handle_all, handle_streams, after_read, after_recovery,
  round, rounds, after_group, run,
}
use odyssey_core_agent.Consumer.Outcomes.{copy_of, Grew, Fate}
use odyssey_core_agent.Consumer.Fate.{handle-Fate}
use odyssey_core_agent.Consumer.Acks.{Sound, run-Justified}
use odyssey_core_agent.Consumer.Scan.{recover_stuck-ends}
use odyssey_core_agent.Consumer.Shutdown.{Clock, run-returns}
use odyssey_core_agent.Consumer.Delivery.{entry_of, Delivered, publish-handle}
use odyssey_core_agent.Commands.Recorder.{Database, record_handler, run-record_handler}
use odyssey_core_agent.Results.Statements.{no_faults}
use odyssey_core_agent.Results.Schema.{IsSound}
use odyssey_core_agent.Scenarios.Streams.{
  begun, raw_event, poison, fresh, demo_redis, late_handler, demo_options, no_rows, demo_session,
  demo_rank, demo_advances, demo_stops,
}

handle-Fate_example :
    Grew
      (Fate demo_redis fresh)
      demo_session
      (handle late_handler demo_options fresh demo_session).1
handle-Fate_example = handle-Fate late_handler demo_options fresh demo_session

run-Justified_example : Sound demo_session (run late_handler demo_options 2 4 demo_session).1
run-Justified_example = run-Justified late_handler demo_options 2 4 demo_session

recover_stuck-ends_example : (recover_stuck late_handler demo_options 2 "0-0" demo_session).0 ≡ true
recover_stuck-ends_example =
    recover_stuck-ends demo_rank 1 demo_advances late_handler demo_options 2 "0-0" demo_session
      (omega arith) (omega arith)

-- The clock of the demo.
abbrev demo_clock : Clock demo_redis late_handler
demo_clock = record {
  time = λ w. w.0;
  steady = record {
    same = λ w. omega arith;
    in_turn = λ u v w h k. omega arith;
    x_group_create = λ w stream group start. omega arith;
    x_read_group = λ w args. omega arith;
    x_auto_claim = λ w args. omega arith;
    x_pending = λ w args. omega arith;
    x_range = λ w stream start stop. omega arith;
    x_add = λ w args. omega arith;
    x_ack = λ w stream group id. omega arith;
    wait = λ w period. omega arith;
    handling = λ w event. omega arith;
  };
  reads = λ w args. omega arith;
}

run-returns_example :
    (run late_handler demo_options 2 4 demo_session).0
    ≡ returned (ensure_group late_handler demo_options demo_session).0
run-returns_example =
    run-returns late_handler demo_options demo_clock 3 demo_stops demo_rank 1 demo_advances
      (omega arith) 2 (omega arith) 3 demo_session (omega arith)

publish-handle_example :
    (publish demo_redis begun (0, no_rows) ≡ demo_redis.x_add (0, no_rows) (envelope_of raw_event))
    × Grew
        (Delivered
          (entry_of "7-0" (envelope_of raw_event))
          begun
          (late_handler demo_session.world begun).0)
        demo_session
        (handle late_handler demo_options (entry_of "7-0" (envelope_of raw_event)) demo_session).1
publish-handle_example =
    publish-handle late_handler demo_options begun raw_event "7-0" (0, no_rows) demo_session refl
      refl

-- The recorder's tables, in a database without faults.
abbrev demo_database : Database demo_redis
demo_database = record {
  tables = λ w. w.1;
  write = λ t w. (w.0, t);
  faults = λ w. no_faults;
  written = λ t w. refl;
  x_group_create = λ w stream group start. refl;
  x_read_group = λ w args. refl;
  x_auto_claim = λ w args. refl;
  x_pending = λ w args. refl;
  x_range = λ w stream start stop. refl;
  x_add = λ w args. refl;
  x_ack = λ w stream group id. refl;
  wait = λ w period. refl;
}

abbrev demo_recorder : Handler demo_redis
demo_recorder = record_handler demo_redis demo_database (λ at. "noon")

no_rows-IsSound : IsSound no_rows
no_rows-IsSound = record {
  runs_unique = tt;
  jobs_unique = tt;
  steps_unique = tt;
  jobs_refer = tt;
  steps_refer = tt;
}

run-record_handler_example :
    IsSound (demo_database.tables (run demo_recorder demo_options 2 4 demo_session).1.world)
run-record_handler_example =
    run-record_handler demo_redis demo_database (λ at. "noon") demo_options 2 4 demo_session
      no_rows-IsSound

-- In the first round the exhausted entry is buried, and the handler refuses the new one.
first_round :
    (run late_handler demo_options 2 1 demo_session).1.log
    ≡ counted "4-0" (pos 6 ∷ [])
      ∷ looked_up "4-0" (poison ∷ [])
      ∷ dead_lettered "4-0" (copy_of "4-0" "}") none
      ∷ acked "4-0" none
      ∷ taken_up fresh
      ∷ handled "7-0" begun (some (external "database is locked"))
      ∷ []
unfolding run ensure_group tolerate_existing contains call after_group rounds round after_recovery
    recover_stuck after_claim claim_args next_page recover_all recover_one pending_args
    after_pending note is_exhausted recover_or_bury dead_letter after_range dead_letter_entry
    dead_args add_copy after_dead ack read_args after_read handle_streams handle_all handle envelope
    as_text after_envelope after_decode after_handler text_or_empty lookup
first_round = refl
