-- ===== src/Orchestrator/Bus.antt =====
-- How internal/orchestrator/orchestrator.go emits events, and the identity of a run.
use Prim.Native.Char.{Char}
use Prim.Native.String.{◌++◌ as str_append}
use odyssey_core_agent.Prelude.{
  ℕ, zero, suc, ◌/◌, ◌%◌, String, List, [], ◌∷◌, ◌++◌, Option, none, some,
}
use odyssey_core_agent.Prelude.Error.{Error}
use odyssey_core_agent.Prelude.Decimal.{format_nat, digit}
use odyssey_core_agent.Domain.Pipeline.{Event}

-- The answers of the sink in one run, each to an event behind those before it; `none` in its place is no
-- sink. What its calls change outside, they change in the instants and the runner's answers of that
-- run, which are inputs beside it.
abbrev pub EventSink : Type 0
EventSink = Option (List Event → Event → Option Error)

-- The events handed to the sink and those that it failed on, newest last.
pub record Bus : Type 0 where
  pub published : List Event
  pub refused : List Event

unfoldable pub note_refusal : Option Error → Event → Bus → Bus
note_refusal none event b = b
note_refusal (some e) event b = record b { refused = b.refused ++ event ∷ [] }

-- `emit`: a failure to publish is logged, and never fatal.
unfoldable pub emit : EventSink → Event → Bus → Bus
unfolding note_refusal
emit none event b = b
emit (some sink) event b =
    note_refusal (sink b.published event) event (record b { published = b.published ++ event ∷ [] })

-- `stampedSink.Publish`: the event as it is handed on.
unfoldable pub stamp : String → String → Event → Event
stamp pipeline run_id event = record event { pipeline = pipeline; run_id = run_id }

-- The hexadecimal digit of a number below sixteen.
unfoldable pub hex_digit : ℕ → Char
hex_digit (suc (suc (suc (suc (suc (suc (suc (suc (suc (suc zero)))))))))) = "a"
hex_digit (suc (suc (suc (suc (suc (suc (suc (suc (suc (suc (suc zero))))))))))) = "b"
hex_digit (suc (suc (suc (suc (suc (suc (suc (suc (suc (suc (suc (suc zero)))))))))))) = "c"
hex_digit (suc (suc (suc (suc (suc (suc (suc (suc (suc (suc (suc (suc (suc zero))))))))))))) = "d"
hex_digit (suc (suc (suc (suc (suc (suc (suc (suc (suc (suc (suc (suc (suc (suc zero)))))))))))))) =
    "e"
hex_digit
      (suc (suc (suc (suc (suc (suc (suc (suc (suc (suc (suc (suc (suc (suc (suc n))))))))))))))) =
    "f"
hex_digit n = digit n

-- `hex.EncodeToString`
unfoldable pub hex : List ℕ → String
unfolding hex_digit digit
hex [] = ""
hex (b ∷ bs) = String.◌∷◌ (hex_digit (b / 16)) (String.◌∷◌ (hex_digit (b % 16)) (hex bs))

-- `newRunID`, from the clock and the random bytes, if there are any.
unfoldable pub new_run_id : ℕ → Option (List ℕ) → String
unfolding hex format_nat
new_run_id now none = str_append "run-" (format_nat now)
new_run_id now (some bytes) =
    str_append "run-" (str_append (format_nat now) (str_append "-" (hex bytes)))
