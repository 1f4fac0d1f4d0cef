-- ===== src/Bus/Publisher.antt =====
-- `Publisher.Publish` of internal/bus/bus.go.
use odyssey_core_agent.Prelude.{ℕ, String, true, [], ◌∷◌, Option, some}
use odyssey_core_agent.Prelude.Error.{Error, Result, ok, err}
use odyssey_core_agent.Domain.Pipeline.{Event}
use odyssey_core_agent.Bus.Redis.{AddArgs, Redis}

abbrev pub stream_events : String
stream_events = "odyssey:events"

abbrev pub stream_dead : String
stream_dead = "odyssey:dead"

abbrev pub max_stream_len : ℕ
max_stream_len = 100_000

-- The entry that is added for an encoded event.
unfoldable pub envelope_of : String → AddArgs
envelope_of body = record {
  stream = stream_events;
  max_len = max_stream_len;
  approx = true;
  values = ("envelope", body) ∷ [];
}

module _ (r : Redis) where
  -- `Publish`, once the event is encoded.
  unfoldable pub add_envelope : Result String → r.World → Option Error × r.World
  add_envelope (err e) w = (some e, w)
  add_envelope (ok body) w = r.x_add w (envelope_of body)

  -- `Publisher.Publish`
  unfoldable pub publish : Event → r.World → Option Error × r.World
  publish event w = add_envelope (r.encode event) w
