-- ===== src/Consumer/Outcomes.antt =====
-- What can happen to one entry of the stream in internal/consumer/consumer.go, as deeds.
use odyssey_core_agent.Prelude.{
  String, List, [], ◌∷◌, ◌++◌, Option, none, some, ◌≡◌, ◌≢◌, ◌⊎◌, false, ℤ, pos, negsuc, ◌<◌,
  lookup,
}
use odyssey_core_agent.Prelude.Error.{Error, ok, err}
use odyssey_core_agent.Domain.Pipeline.{Event}
use odyssey_core_agent.Bus.Redis.{Value, Message, AddArgs, Redis}
use odyssey_core_agent.Consumer.Options.{Options}
use odyssey_core_agent.Consumer.Session.{
  Deed, counted, taken_up, handled, looked_up, dead_lettered, acked, Session,
}

-- From `s` to `t` the log grew by deeds of this shape.
pub record Grew {r : Redis} (P : List Deed → Type 0) (s t : Session r) : Type 0 where
  pub new : List Deed
  pub log : t.log ≡ s.log ++ new
  pub shape : P new

-- The field `envelope` of the entry is this text.
abbrev pub HasText : Message → String → Type 0
HasText msg raw = lookup "envelope" msg.values ≡ some (Value.text raw)

-- What a copy keeps of the entry: its text, and the empty text if it has none.
abbrev pub KeepsText : Message → String → Type 0
KeepsText msg raw = HasText msg raw ⊎ (((text : String) → HasText msg text → ⊥) × (raw ≡ ""))

-- The copy of an entry in the dead-letter stream.
abbrev pub copy_of : String → String → AddArgs
copy_of id raw = record {
  stream = "odyssey:dead";
  max_len = 0;
  approx = false;
  values = ("envelope", raw) ∷ ("source_id", id) ∷ [];
}

-- The order of the integers.
abbrev pub Less : ℤ → ℤ → Type 0
Less (pos a) (pos b) = a < b
Less (negsuc a) (negsuc b) = b < a
Less (negsuc a) (pos b) = Unit
Less (pos a) (negsuc b) = ⊥

-- Redis has one count of attempts for the entry, and it is more than the options allow.
abbrev pub Exceeds : Options → List ℤ → Type 0
Exceeds opts counts = (count : ℤ) × (counts ≡ count ∷ []) × Less opts.max_attempts count

-- An entry is buried: its copy could not be written, so that it stays pending, or it was, and then it
-- is acknowledged.
pub data Buried (id raw : String) (deeds : List Deed) : Type 0 where
  parked :
      (e : Error) → deeds ≡ dead_lettered id (copy_of id raw) (some e) ∷ [] → Buried id raw deeds
  moved :
      (a : Option Error)
      → deeds ≡ dead_lettered id (copy_of id raw) none ∷ acked id a ∷ []
      → Buried id raw deeds

module _ (r : Redis) (msg : Message) where
  -- The entry has no text, or one that does not parse.
  abbrev pub Poison : Type 0
  Poison =
      ((text : String) → HasText msg text → ⊥)
      ⊎ ((raw : String) × (e : Error) × HasText msg raw × (r.decode raw ≡ err e))

  -- The entry's text parses to the event.
  abbrev pub Carries : Event → Type 0
  Carries event = (raw : String) × HasText msg raw × (r.decode raw ≡ ok event)

  -- How an entry is handled: a poisoned one is buried with its text and never reaches the handler; any
  -- other is given to the handler, and acknowledged exactly if the handler succeeds.
  pub data Fate (deeds : List Deed) : Type 0 where
    poisoned :
        (raw : String) (rest : List Deed)
        → Poison
        → KeepsText msg raw
        → Buried msg.id raw rest
        → deeds ≡ taken_up msg ∷ rest
        → Fate deeds
    refused :
        (event : Event) (e : Error)
        → Carries event
        → deeds ≡ taken_up msg ∷ handled msg.id event (some e) ∷ []
        → Fate deeds
    done :
        (event : Event) (a : Option Error)
        → Carries event
        → deeds ≡ taken_up msg ∷ handled msg.id event none ∷ acked msg.id a ∷ []
        → Fate deeds

  -- How an entry whose attempts are exhausted is given up: the stream could not be read; it did not
  -- answer with exactly one entry, and the entry is acknowledged; or it did, and that one is buried
  -- with its text.
  pub data GivenUp (deeds : List Deed) : Type 0 where
    unread : deeds ≡ [] → GivenUp deeds
    not_one :
        (entries : List Message) (a : Option Error)
        → ((entry : Message) → entries ≢ entry ∷ [])
        → deeds ≡ looked_up msg.id entries ∷ acked msg.id a ∷ []
        → GivenUp deeds
    buried :
        (entry : Message) (raw : String) (rest : List Deed)
        → KeepsText entry raw
        → Buried msg.id raw rest
        → deeds ≡ looked_up msg.id (entry ∷ []) ∷ rest
        → GivenUp deeds

  -- How a claimed entry is recovered: its attempts could not be counted, and nothing is done; or they
  -- are counted, and it is given up if they exceed the bound, and handled again if not.
  pub data Recovered (opts : Options) (deeds : List Deed) : Type 0 where
    uncounted : deeds ≡ [] → Recovered opts deeds
    retried :
        (counts : List ℤ) (rest : List Deed)
        → (Exceeds opts counts → ⊥)
        → Fate rest
        → deeds ≡ counted msg.id counts ∷ rest
        → Recovered opts deeds
    exhausted :
        (counts : List ℤ) (rest : List Deed)
        → Exceeds opts counts
        → GivenUp rest
        → deeds ≡ counted msg.id counts ∷ rest
        → Recovered opts deeds
