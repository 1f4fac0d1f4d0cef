-- ===== src/Scenarios/Programs.antt =====
-- The theorems on cmd/events-logger/main.go, and runs of cmd/client/main.go, at concrete inputs.
use odyssey_core_agent.Prelude.{
  ℕ, suc, String, false, List, lookup, [], ◌∷◌, ◌++◌, none, some, pos, ◌≡◌, refl, leb, ◌==◌,
  if◌then◌else◌,
}
use odyssey_core_agent.Prelude.Error.{Error, external, canceled, ok, err}
use odyssey_core_agent.Bus.Redis.{Redis}
use odyssey_core_agent.Consumer.Options.{new, with_defaults}
use odyssey_core_agent.Consumer.Session.{call, note, Session}
use odyssey_core_agent.Consumer.Entry.{
  handle, after_envelope, envelope, as_text, after_decode, after_handler, ack,
}
use odyssey_core_agent.Consumer.Loop.{
  run, after_group, ensure_group, tolerate_existing, rounds, round, after_recovery, recover_stuck,
  after_claim, recover_all, next_page, after_read, handle_streams, handle_all,
}
use odyssey_core_agent.Server.Messages.{
  StatusMessage, status_unspecified, status_pending, status_running, status_passed, status_failed,
  status_errored, status_skipped, StepMessage, Response,
}
use odyssey_core_agent.Commands.Client.{main}
use odyssey_core_agent.Commands.EventsLogger.{
  event_line, Console, logger_options, Ending, after_run, print_event, with_consumer, logger_main,
}
use odyssey_core_agent.Commands.Printing.{Told, logger_main-Told}
use odyssey_core_agent.Scenarios.Streams.{begun, raw_event, fresh}

-- A server of two ticks, with the lines printed so far: every read delivers the entry anew.
abbrev printing_redis : Redis
printing_redis = record {
  World = ℕ × List String;
  x_group_create = λ w stream group start. (none, w);
  x_read_group = λ w args. (ok ((fresh ∷ []) ∷ []), (suc w.0, w.1));
  x_auto_claim = λ w args. (ok ([], "0-0"), w);
  x_pending = λ w args. (ok (pos 1 ∷ []), w);
  x_range = λ w stream start stop. (ok (fresh ∷ []), w);
  x_add = λ w args. (none, w);
  x_ack = λ w stream group id. (none, w);
  is_nil = λ e. false;
  error_text = λ e. "error";
  ctx_err = λ w. if leb 2 w.0 then some canceled else none;
  wait = λ w period. (false, w);
  encode = λ event. ok raw_event;
  decode = λ raw. if raw == raw_event then ok begun else err (external "unexpected end of JSON");
}

abbrev demo_console : Console printing_redis
demo_console = record {
  printed = λ w. w.1;
  print = λ text w. (w.0, w.1 ++ text ∷ []);
  shown = λ text w. refl;
  x_group_create = λ w stream group start. refl;
  x_read_group = λ w args. refl;
  x_auto_claim = λ w args. refl;
  x_pending = λ w args. refl;
  x_range = λ w stream start stop. refl;
  x_add = λ w args. refl;
  x_ack = λ w stream group id. refl;
  wait = λ w period. refl;
}

abbrev silent_session : Session printing_redis
silent_session = record { world = (0, []); log = [] }

logger_main-Told_example :
    Told demo_console
      (logger_main printing_redis demo_console "events-logger" (ok "host") 17 2 4 silent_session).1
logger_main-Told_example =
    logger_main-Told demo_console "events-logger" (ok "host") 17 2 4 silent_session refl

printed_twice :
    (logger_main printing_redis demo_console "events-logger"
      (ok "host")
      17
      2
      4
      silent_session).1.world.1
    ≡ "type=pipeline.started pipeline=demo job= step=\n"
      ∷ "type=pipeline.started pipeline=demo job= step=\n" ∷ []
unfolding logger_main with_consumer logger_options new with_defaults run after_group ensure_group
    tolerate_existing rounds round after_recovery recover_stuck after_claim recover_all next_page
    after_read handle_streams handle_all handle after_envelope envelope as_text lookup after_decode
    after_handler ack call note print_event event_line after_run
printed_twice = refl

no_group :
    (logger_main printing_redis demo_console "" (ok "host") 17 2 4 silent_session).0
    ≡ Ending.ended 1
unfolding logger_main
no_group = refl

abbrev show : StatusMessage → String
show status_unspecified = "STATUS_UNSPECIFIED"
show status_pending = "STATUS_PENDING"
show status_running = "STATUS_RUNNING"
show status_passed = "STATUS_PASSED"
show status_failed = "STATUS_FAILED"
show status_errored = "STATUS_ERRORED"
show status_skipped = "STATUS_SKIPPED"

abbrev failed_step : StepMessage
failed_step = record {
  step_name = "test";
  stdout = "";
  stderr = "no such test";
  exit_code = pos 2;
  status = status_failed;
  duration_ms = pos 40;
  error = "";
}

abbrev failed_response : Response
failed_response = record {
  pipeline_name = "demo";
  status = status_failed;
  stage_results =
      record {
        stage_name = "build";
        status = status_failed;
        job_results =
            record {
              job_name = "unit";
              status = status_failed;
              step_results = failed_step ∷ [];
              duration_ms = pos 40;
              error = "";
            }
            ∷ [];
        duration_ms = pos 41;
      }
      ∷ [];
  duration_ms = pos 42;
}

abbrev text_of : Error → String
text_of e = "error"

printed_tree : main show text_of none (λ path. ok failed_response) ("/srv/app" ∷ []) ≡ record {
  stdout =
      "Pipeline: demo  Status: STATUS_FAILED\n" ∷ "  Stage: build  Status: STATUS_FAILED\n"
      ∷ "    Job: unit  Status: STATUS_FAILED\n"
      ∷ "      Step: test  Exit: 2  Status: STATUS_FAILED\n" ∷ "        stderr: no such test\n"
      ∷ [];
  stderr = [];
  exit_code = 0;
}
unfolding main
printed_tree = refl
