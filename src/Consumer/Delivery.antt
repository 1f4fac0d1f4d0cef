-- ===== src/Consumer/Delivery.antt =====
-- From `Publish` of internal/bus/bus.go to the handler of internal/consumer/consumer.go.
use odyssey_core_agent.Prelude.{
  String, List, [], ◌∷◌, ◌++◌, Option, none, some, ◌≡◌, refl, ◌∙◌, ap, map, lookup, append_assoc,
}
use odyssey_core_agent.Prelude.Error.{Error, ok}
use odyssey_core_agent.Domain.Pipeline.{Event}
use odyssey_core_agent.Bus.Redis.{Value, Message, AddArgs, Redis}
use odyssey_core_agent.Bus.Publisher.{envelope_of, add_envelope, publish}
use odyssey_core_agent.Consumer.Options.{Options}
use odyssey_core_agent.Consumer.Session.{
  Deed, taken_up, handled, acked, Session, Handler, call, note,
}
use odyssey_core_agent.Consumer.Entry.{
  as_text, envelope, ack, after_handler, after_decode, after_envelope, handle,
}
use odyssey_core_agent.Consumer.Outcomes.{Grew}

-- The entry that a stream holds, under an ID, for what was added to it.
unfoldable pub entry_of : String → AddArgs → Message
entry_of id args = record {
  id = id;
  values = map (λ (key, raw). (key, Value.text raw)) args.values;
}

-- The event that the entry carries reached the handler, which answered `e`, and the entry is
-- acknowledged if it agreed.
pub data Delivered (msg : Message) (event : Event) : Option Error → List Deed → Type 0 where
  taken :
      (a : Option Error)
      → Delivered msg event none (taken_up msg ∷ handled msg.id event none ∷ acked msg.id a ∷ [])
  declined :
      (e : Error) → Delivered msg event (some e) (taken_up msg ∷ handled msg.id event (some e) ∷ [])

module _ {r : Redis} (handler : Handler r) (opts : Options) where
  after_handler-Delivered :
      (msg : Message) (event : Event) (e : Option Error) (s t : Session r)
      → t.log ≡ s.log ++ taken_up msg ∷ handled msg.id event e ∷ []
      → Grew (Delivered msg event e) s (after_handler handler opts msg.id e t).1
  unfolding after_handler ack call note
  after_handler-Delivered msg event (some why) s t h = record {
    new = _;
    log = h;
    shape = declined why;
  }
  after_handler-Delivered msg event none s t h =
      let a = (r.x_ack t.world opts.stream opts.group msg.id).0 in
      record {
        new = taken_up msg ∷ handled msg.id event none ∷ acked msg.id a ∷ [];
        log = ap (λ l. l ++ acked msg.id a ∷ []) h ∙ append_assoc s.log _ _;
        shape = taken a;
      }

  -- An event that encodes as `body`, from which decoding gives it back, is added to the stream by
  -- `Publish` as an entry that, delivered under any ID, reaches the handler: the handler is given this
  -- very event, once, and the entry is acknowledged exactly if it agrees.
  pub publish-handle :
      (event : Event) (body id : String) (w : r.World) (s : Session r)
      → r.encode event ≡ ok body
      → r.decode body ≡ ok event
      → (publish r event w ≡ r.x_add w (envelope_of body))
        × Grew
            (Delivered (entry_of id (envelope_of body)) event (handler s.world event).0)
            s
            (handle handler opts (entry_of id (envelope_of body)) s).1
  unfolding publish add_envelope handle envelope lookup as_text entry_of envelope_of after_envelope
      after_decode call note
  publish-handle event body id w s encoded decoded = (
    rw encoded refl,
    rw decoded (
        after_handler-Delivered (entry_of id (envelope_of body)) event _ s _
          (append_assoc s.log _ _)),
  )
