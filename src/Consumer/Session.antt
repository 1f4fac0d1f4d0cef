-- ===== src/Consumer/Session.antt =====
-- What a consumer of internal/consumer/consumer.go has done so far, and how it calls the outside.
use odyssey_core_agent.Prelude.{String, List, [], ◌∷◌, ◌++◌, Option, ℤ}
use odyssey_core_agent.Prelude.Error.{Error}
use odyssey_core_agent.Prelude.State.{Action}
use odyssey_core_agent.Domain.Pipeline.{Event}
use odyssey_core_agent.Bus.Redis.{Message, AddArgs, Redis}

-- What happened to an entry, by its ID: its attempts were counted, it was taken up, it was handed to the
-- handler, it was looked up in the stream, which had these entries, a copy of it was added to a stream
-- with these arguments, or it was acknowledged, with the error, if any.
pub data Deed : Type 0 where
  counted : String → List ℤ → Deed
  taken_up : Message → Deed
  handled : String → Event → Option Error → Deed
  looked_up : String → List Message → Deed
  dead_lettered : String → AddArgs → Option Error → Deed
  acked : String → Option Error → Deed

pub record Session (r : Redis) : Type 0 where
  pub world : r.World
  pub log : List Deed

-- A handler works on the world outside.
abbrev pub Handler : Redis → Type 0
Handler r = r.World → Event → Option Error × r.World

module _ {r : Redis} where
  -- An operation of the world outside.
  unfoldable pub call : {A : Type 0} → (r.World → A × r.World) → Action (Session r) A
  call op s = let a = op s.world in (a.0, record s { world = a.1 })

  unfoldable pub note : Deed → Action (Session r) (Unit {0})
  note deed s = (tt, record s { log = s.log ++ deed ∷ [] })
