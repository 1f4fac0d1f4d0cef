-- ===== src/Consumer/Loop.antt =====
-- `Consumer.Run` of internal/consumer/consumer.go and its scan for stuck entries.
use text.Mathlib.Text.{starts_with}
use odyssey_core_agent.Prelude.{
  ℕ, zero, suc, String, Bool, true, false, ◌||◌, List, [], ◌∷◌, Option, none, some, ◌==◌,
  if◌then◌else◌,
}
use odyssey_core_agent.Prelude.Error.{Error, Result, ok, err}
use odyssey_core_agent.Prelude.State.{Action, ◌>>=◌, ◌>>◌, pure}
use odyssey_core_agent.Bus.Redis.{Message, ReadArgs, ClaimArgs, Redis}
use odyssey_core_agent.Consumer.Options.{Options, read_backoff}
use odyssey_core_agent.Consumer.Session.{Session, Handler, call}
use odyssey_core_agent.Consumer.Entry.{handle, recover_one}

-- `strings.Contains(s, sub)`
unfoldable pub contains : String → String → Bool
contains String.[] sub = starts_with "" sub
contains (String.◌∷◌ c s) sub = starts_with (String.◌∷◌ c s) sub || contains s sub

-- An existing group is no error.
unfoldable pub tolerate_existing : (Error → String) → Option Error → Option Error
unfolding contains
tolerate_existing text none = none
tolerate_existing text (some e) = if contains (text e) "BUSYGROUP" then none else some e

unfoldable pub claim_args : Options → String → ClaimArgs
claim_args opts start = record {
  stream = opts.stream;
  group = opts.group;
  consumer = opts.consumer;
  min_idle = opts.min_idle;
  start = start;
  count = 64;
}

unfoldable pub read_args : Options → ReadArgs
read_args opts = record {
  group = opts.group;
  consumer = opts.consumer;
  streams = opts.stream ∷ ">" ∷ [];
  count = 10;
  block = opts.block;
}

-- How far a bounded number of rounds of `Run` came: it returned, with this error, or it goes on.
pub data Progress : Type 0 where
  returned : Option Error → Progress
  running : Progress

module _ {r : Redis} (handler : Handler r) (opts : Options) where
  -- `ensureGroup`
  unfoldable pub ensure_group : Action (Session r) (Option Error)
  unfolding tolerate_existing
  ensure_group = do
    e ← call (λ w. r.x_group_create w opts.stream opts.group "0")
    pure (tolerate_existing r.error_text e)

  -- The loop over the claimed entries.
  unfoldable pub recover_all : List Message → Action (Session r) (Unit {0})
  recover_all [] = pure tt
  recover_all (msg ∷ msgs) = do recover_one handler opts msg; recover_all msgs

  -- The end of a round of the scan: on a last page, or on to the next cursor.
  unfoldable pub next_page : (String → Action (Session r) Bool) → String → Action (Session r) Bool
  next_page rest next = let more = rest next in if next == "0-0" then pure true else more

  -- A round of the scan, once the claim is answered.
  unfoldable pub after_claim :
      (String → Action (Session r) Bool) → Result (List Message × String) → Action (Session r) Bool
  after_claim rest (err e) = pure true
  after_claim rest (ok (claimed, next)) = do recover_all claimed; next_page rest next

  -- `recoverStuck` from a cursor, for a number of pages; false if there are more.
  unfoldable pub recover_stuck : ℕ → String → Action (Session r) Bool
  recover_stuck zero start = pure false
  recover_stuck (suc pages) start = do
    answer ← call (λ w. r.x_auto_claim w (claim_args opts start))
    after_claim (recover_stuck pages) answer

  -- The loop over the messages of one stream, and over the streams.
  unfoldable pub handle_all : List Message → Action (Session r) (Unit {0})
  handle_all [] = pure tt
  handle_all (msg ∷ msgs) = do handle handler opts msg; handle_all msgs

  unfoldable pub handle_streams : List (List Message) → Action (Session r) (Unit {0})
  handle_streams [] = pure tt
  handle_streams (msgs ∷ streams) = do handle_all msgs; handle_streams streams

  -- `select`: the context was done first, or the time is over.
  unfoldable pub after_wait : Action (Session r) Progress → Bool → Action (Session r) Progress
  after_wait rest true = pure (returned none)
  after_wait rest false = rest

  -- After a failed read: go on at once, or back off.
  unfoldable pub after_failure :
      Action (Session r) Progress → Error → Option Error → Action (Session r) Progress
  after_failure rest e (some why) = rest
  after_failure rest e none =
      let back_off : Action (Session r) Progress = (do
        timed_out ← call (λ w. r.wait w read_backoff)
        after_wait rest timed_out) in
      if r.is_nil e then rest else back_off

  -- A round, once the read is answered.
  unfoldable pub after_read :
      Action (Session r) Progress → Result (List (List Message)) → Action (Session r) Progress
  after_read rest (err e) = do stopped ← call (λ w. (r.ctx_err w, w)); after_failure rest e stopped
  after_read rest (ok streams) = do handle_streams streams; rest

  -- A round, once the stuck entries are recovered, or the pages did not suffice.
  unfoldable pub after_recovery : Action (Session r) Progress → Bool → Action (Session r) Progress
  after_recovery rest false = pure running
  after_recovery rest true = do
    answer ← call (λ w. r.x_read_group w (read_args opts))
    after_read rest answer

  -- A round, once the context was asked.
  unfoldable pub round :
      ℕ → Action (Session r) Progress → Option Error → Action (Session r) Progress
  round pages rest (some why) = pure (returned none)
  round pages rest none = do done ← recover_stuck pages "0-0"; after_recovery rest done

  -- The loop of `Run`, for a number of rounds and of pages in each.
  unfoldable pub rounds : ℕ → ℕ → Action (Session r) Progress
  rounds pages zero = pure running
  rounds pages (suc n) = do
    stopped ← call (λ w. (r.ctx_err w, w))
    round pages (rounds pages n) stopped

  -- `Run`, once the group is there or not.
  unfoldable pub after_group : ℕ → ℕ → Option Error → Action (Session r) Progress
  after_group pages n (some e) = pure (returned (some e))
  after_group pages n none = rounds pages n

  -- `Consumer.Run`
  unfoldable pub run : ℕ → ℕ → Action (Session r) Progress
  run pages n = do e ← ensure_group; after_group pages n e
