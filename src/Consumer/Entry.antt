-- ===== src/Consumer/Entry.antt =====
-- What internal/consumer/consumer.go does with one entry of the stream.
use odyssey_core_agent.Prelude.{
  String, Bool, true, false, List, [], ◌∷◌, Option, none, some, ℤ, int_lt, lookup,
}
use odyssey_core_agent.Prelude.Error.{Error, Result, ok, err}
use odyssey_core_agent.Prelude.State.{Action, ◌>>=◌, ◌>>◌, pure}
use odyssey_core_agent.Domain.Pipeline.{Event}
use odyssey_core_agent.Bus.Redis.{Value, Message, AddArgs, PendingArgs, Redis}
use odyssey_core_agent.Bus.Publisher.{stream_dead}
use odyssey_core_agent.Consumer.Options.{Options}
use odyssey_core_agent.Consumer.Session.{
  counted, taken_up, handled, looked_up, dead_lettered, acked, Session, Handler, call, note,
}

-- `value.(string)`
unfoldable pub as_text : Option Value → Option String
as_text none = none
as_text (some (Value.text raw)) = some raw
as_text (some Value.other) = none

-- `msg.Values["envelope"].(string)`
unfoldable pub envelope : Message → Option String
unfolding lookup as_text
envelope msg = as_text (lookup "envelope" msg.values)

-- `raw, _ := ...`: empty if it is no text.
unfoldable pub text_or_empty : Option String → String
text_or_empty none = ""
text_or_empty (some raw) = raw

unfoldable pub dead_args : String → String → AddArgs
dead_args id raw = record {
  stream = stream_dead;
  max_len = 0;
  approx = false;
  values = ("envelope", raw) ∷ ("source_id", id) ∷ [];
}

-- `len(pending) == 1 && pending[0].RetryCount > int64(MaxAttempts)`
unfoldable pub is_exhausted : Options → List ℤ → Bool
is_exhausted opts (count ∷ []) = int_lt opts.max_attempts count
is_exhausted opts [] = false
is_exhausted opts (a ∷ b ∷ counts) = false

unfoldable pub pending_args : Options → String → PendingArgs
pending_args opts id = record {
  stream = opts.stream;
  group = opts.group;
  start = id;
  stop = id;
  count = 1;
}

module _ {r : Redis} (handler : Handler r) (opts : Options) where
  -- `XAck`; a failure is only logged.
  unfoldable pub ack : String → Action (Session r) (Unit {0})
  ack id = do e ← call (λ w. r.x_ack w opts.stream opts.group id); note (acked id e)

  -- The copy to a stream, with these arguments.
  unfoldable pub add_copy : String → AddArgs → Action (Session r) (Option Error)
  add_copy id args = do e ← call (λ w. r.x_add w args); note (dead_lettered id args e); pure e

  -- The entry is acknowledged only if its copy was written.
  unfoldable pub after_dead : String → Option Error → Action (Session r) (Unit {0})
  after_dead id (some e) = pure tt
  after_dead id none = ack id

  -- `deadLetterEntry`
  unfoldable pub dead_letter_entry : String → String → Action (Session r) (Unit {0})
  dead_letter_entry id raw = do e ← add_copy id (dead_args id raw); after_dead id e

  -- `deadLetter`, once the stream was read.
  unfoldable pub after_range : String → Result (List Message) → Action (Session r) (Unit {0})
  unfolding envelope text_or_empty
  after_range id (err e) = pure tt
  after_range id (ok (msg ∷ [])) = do
    note (looked_up id (msg ∷ []))
    dead_letter_entry id (text_or_empty (envelope msg))
  after_range id (ok []) = do note (looked_up id []); ack id
  after_range id (ok (a ∷ b ∷ entries)) = do note (looked_up id (a ∷ b ∷ entries)); ack id

  -- `deadLetter`
  unfoldable pub dead_letter : String → Action (Session r) (Unit {0})
  dead_letter id = do entries ← call (λ w. r.x_range w opts.stream id id); after_range id entries

  -- `handle`, once the handler returned.
  unfoldable pub after_handler : String → Option Error → Action (Session r) (Unit {0})
  after_handler id (some e) = pure tt
  after_handler id none = ack id

  -- `handle`, once the envelope is parsed or not.
  unfoldable pub after_decode : String → String → Result Event → Action (Session r) (Unit {0})
  after_decode id raw (err e) = dead_letter_entry id raw
  after_decode id raw (ok event) = do
    e ← call (λ w. handler w event)
    note (handled id event e)
    after_handler id e

  -- `handle`, once the envelope is taken from the entry or is missing.
  unfoldable pub after_envelope : String → Option String → Action (Session r) (Unit {0})
  after_envelope id none = dead_letter_entry id ""
  after_envelope id (some raw) = after_decode id raw (r.decode raw)

  -- `handle`
  unfoldable pub handle : Message → Action (Session r) (Unit {0})
  handle msg = do note (taken_up msg); after_envelope msg.id (envelope msg)

  -- `recoverOne`, once it is known whether the attempts are exhausted.
  unfoldable pub recover_or_bury : Message → Bool → Action (Session r) (Unit {0})
  recover_or_bury msg true = dead_letter msg.id
  recover_or_bury msg false = handle msg

  -- `recoverOne`, once the pending entry was looked up.
  unfoldable pub after_pending : Message → Result (List ℤ) → Action (Session r) (Unit {0})
  after_pending msg (err e) = pure tt
  after_pending msg (ok counts) = do
    note (counted msg.id counts)
    recover_or_bury msg (is_exhausted opts counts)

  -- `recoverOne`
  unfoldable pub recover_one : Message → Action (Session r) (Unit {0})
  recover_one msg = do
    counts ← call (λ w. r.x_pending w (pending_args opts msg.id))
    after_pending msg counts
