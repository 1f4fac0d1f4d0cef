-- ===== src/Scenarios/Streams.antt =====
-- A Redis server with one stuck and one new entry, for internal/consumer/consumer.go.
use odyssey_core_agent.Prelude.{
  ℕ, suc, ◌≤◌, ◌<◌, String, true, false, Bool-cases, List, [], ◌∷◌, none, some, pos, ◌≡◌, refl, ◌⊎◌,
  inl, inr, leb, ◌==◌, eq_iff, arith, if◌then◌else◌,
}
use odyssey_core_agent.Prelude.Error.{Error, external, canceled, Result, ok, err}
use odyssey_core_agent.Domain.Pipeline.{Event}
use odyssey_core_agent.Bus.Redis.{Value, Message, ClaimArgs, Redis}
use odyssey_core_agent.Results.Tables.{Tables}
use odyssey_core_agent.Consumer.Options.{Options, default_min_idle, default_block}
use odyssey_core_agent.Consumer.Session.{Session, Handler}

abbrev pub begun : Event
begun = record {
  type = "pipeline.started";
  occurred_at = 1;
  run_id = "run-1";
  pipeline = "demo";
  job = "";
  step = "";
  payload = [];
}

-- The texts of two entries; only the first parses.
abbrev pub raw_event : String
raw_event = "{\"type\":\"pipeline.started\"}"

abbrev pub poison : Message
poison = record { id = "4-0"; values = ("envelope", Value.text "}") ∷ [] }

abbrev pub fresh : Message
fresh = record { id = "7-0"; values = ("envelope", Value.text raw_event) ∷ [] }

-- The instant and the tables of the recorder.
abbrev pub Outside : Type 0
Outside = ℕ × Tables

abbrev first_answer : Result (List Message × String)
first_answer = ok (poison ∷ [], "5-0")

abbrev last_answer : Result (List Message × String)
last_answer = ok ([], "0-0")

abbrev pub demo_claim : String → Result (List Message × String)
demo_claim start = if start == "0-0" then first_answer else last_answer

abbrev pub demo_text : Error → String
demo_text (external text) = text
demo_text e = ""

-- The group is there already, the context ends at the third tick, and every read takes one.
abbrev pub demo_redis : Redis
demo_redis = record {
  World = Outside;
  x_group_create =
      λ w stream group start. (some (external "BUSYGROUP Consumer Group name already exists"), w);
  x_read_group = λ w args. (ok ((fresh ∷ []) ∷ []), (suc w.0, w.1));
  x_auto_claim = λ w args. (demo_claim args.start, w);
  x_pending = λ w args. (ok (pos 6 ∷ []), w);
  x_range = λ w stream start stop. (ok (poison ∷ []), w);
  x_add = λ w args. (none, w);
  x_ack = λ w stream group id. (none, w);
  is_nil = λ e. false;
  error_text = demo_text;
  ctx_err = λ w. if leb 3 w.0 then some canceled else none;
  wait = λ w period. (false, w);
  encode = λ event. ok raw_event;
  decode = λ raw. if raw == raw_event then ok begun else err (external "unexpected end of JSON");
}

-- A handler that agrees from the second tick on.
abbrev pub late_handler : Handler demo_redis
late_handler w event = (if leb 2 w.0 then none else some (external "database is locked"), w)

abbrev pub demo_options : Options
demo_options = record {
  group = "results-recorder";
  consumer = "host-17";
  stream = "odyssey:events";
  min_idle = default_min_idle;
  max_attempts = pos 5;
  block = default_block;
}

abbrev pub no_rows : Tables
no_rows = record { runs = []; jobs = []; steps = [] }

abbrev pub demo_session : Session demo_redis
demo_session = record { world = (0, no_rows); log = [] }

abbrev pub demo_rank : String → ℕ
demo_rank cursor = if cursor == "0-0" then 0 else 1

first_page :
    (start : String) (claimed : List Message) (next : String)
    → start ≡ "0-0"
    → first_answer ≡ ok (claimed, next)
    → (demo_rank start < demo_rank next) × (demo_rank next ≤ 1)
first_page start claimed next e g =
    let same : next ≡ "5-0" = cc in rw (e, same) (omega arith, omega arith)

last_page :
    (claimed : List Message) (next : String) → last_answer ≡ ok (claimed, next) → next ≡ "0-0"
last_page claimed next g = cc

page_cases :
    (start : String) (claimed : List Message) (next : String)
    → demo_claim start ≡ ok (claimed, next)
    → (next ≡ "0-0") ⊎ ((demo_rank start < demo_rank next) × (demo_rank next ≤ 1))
page_cases start claimed next h = elim (Bool-cases (start == "0-0")) [
  | inl e ↦ inr (first_page start claimed next ((eq_iff start "0-0").0 e) (rw e at h))
  | inr e ↦ inl (last_page claimed next (rw e at h))
]

-- The scan ends at its second page.
pub demo_advances :
    (w : Outside) (args : ClaimArgs) (claimed : List Message) (next : String)
    → (demo_redis.x_auto_claim w args).0 ≡ ok (claimed, next)
    → (next ≡ "0-0") ⊎ ((demo_rank args.start < demo_rank next) × (demo_rank next ≤ 1))
demo_advances w args claimed next h = page_cases args.start claimed next h

-- The context has an error from the third tick on.
pub demo_stops : (w : Outside) → 3 ≤ w.0 → (e : Error) × (demo_redis.ctx_err w ≡ some e)
demo_stops w h = let late : leb 3 w.0 ≡ true = ground arith in (canceled, rw late refl)
