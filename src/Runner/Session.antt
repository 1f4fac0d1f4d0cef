-- ===== src/Runner/Session.antt =====
-- What a run of internal/runner/docker.go has done so far, and the single calls that it makes.
use odyssey_core_agent.Prelude.{ℕ, ◌-◌, String, List, [], ◌∷◌, ◌++◌, Option, none, some}
use odyssey_core_agent.Prelude.Error.{Error}
use odyssey_core_agent.Prelude.State.{Action, ◌>>=◌, pure}
use odyssey_core_agent.Domain.Pipeline.{Event}
use odyssey_core_agent.Runner.Docker.{Context, ExecOptions, Docker}

-- The calls that concern containers. `created` is a successful creation, with the new container's
-- ID; `executed` asks for a command in a container.
pub data Call : Type 0 where
  created copied started : String → Call
  executed : Context → String → ExecOptions → Call
  removed : Context → String → Call

-- A sink takes an event in the world outside, which it can change in any way, the clock included;
-- `none` in its place is no sink.
abbrev pub StepSink : Docker → Type 0
StepSink d = Option (d.World → Event → Option Error × d.World)

-- `published` are the events handed to the sink, `refused` those that it failed on, and `exports` the
-- logged names of the variables that each step exported; all are newest last.
pub record Session (d : Docker) : Type 0 where
  pub world : d.World
  pub calls : List Call
  pub published : List Event
  pub refused : List Event
  pub exports : List (String × List String)

module _ {d : Docker} where
  -- An operation of the world outside.
  unfoldable pub ask : {A : Type 0} → (d.World → A × d.World) → Action (Session d) A
  ask op s = let r = op s.world in (r.0, record s { world = r.1 })

  unfoldable pub log_call : Call → Action (Session d) (Unit {0})
  log_call c s = (tt, record s { calls = s.calls ++ c ∷ [] })

  unfoldable pub log_exports : String → List String → Action (Session d) (Unit {0})
  log_exports step [] s = (tt, s)
  log_exports step (k ∷ ks) s = (tt, record s { exports = s.exports ++ (step, k ∷ ks) ∷ [] })

  unfoldable pub note_refusal : Option Error → Event → Session d → Session d
  note_refusal none event s = s
  note_refusal (some e) event s = record s { refused = s.refused ++ event ∷ [] }

  -- `emitStep`: a failure to publish is logged, and never fatal.
  unfoldable pub emit_step : StepSink d → Event → Action (Session d) (Unit {0})
  unfolding note_refusal
  emit_step none event s = (tt, s)
  emit_step (some sink) event s =
      let a = sink s.world event in
      (tt, note_refusal a.0 event (record s { world = a.1; published = s.published ++ event ∷ [] }))

  -- `time.Since(start)`, by the monotonic clock.
  unfoldable pub since : ℕ → Action (Session d) ℕ
  since start = do t ← ask d.now; pure (t - start)
