-- ===== src/Commands/Printing.antt =====
-- What cmd/events-logger/main.go prints.
use Prim.Native.String.{◌++◌ as ◌<>◌}
use odyssey_core_agent.Prelude.{
  ℕ, String, Bool, true, false, List, [], ◌∷◌, ◌++◌, append_assoc, append-nil, lookup, Option, none,
  some, ◌≡◌, refl, sym, ◌∙◌, ap, ℤ,
}
use odyssey_core_agent.Prelude.Error.{Error, Result, ok, err}
use odyssey_core_agent.Domain.Pipeline.{Event}
use odyssey_core_agent.Prelude.State.{◌>>◌}
use odyssey_core_agent.Bus.Redis.{Value, Message, Redis}
use odyssey_core_agent.Consumer.Options.{Options, read_backoff}
use odyssey_core_agent.Consumer.Session.{
  Deed, counted, taken_up, handled, looked_up, dead_lettered, acked, Session, call, note,
}
use odyssey_core_agent.Consumer.Entry.{
  as_text, envelope, dead_args, pending_args, ack, add_copy, after_dead, dead_letter_entry,
  after_range, dead_letter, after_handler, after_decode, after_envelope, handle, recover_or_bury,
  after_pending, recover_one,
}
use odyssey_core_agent.Consumer.Loop.{read_args, run}
use odyssey_core_agent.Consumer.Steps.{Keeps}
use odyssey_core_agent.Consumer.Rounds.{run-Keeps}
use odyssey_core_agent.Commands.EventsLogger.{
  event_line, Console, print_event, with_consumer, logger_main,
}

-- The line of an event.
abbrev line_of : Event → String
line_of event =
    "type=" <> event.type <> " pipeline=" <> event.pipeline <> " job=" <> event.job <> " step="
    <> event.step <> "\n"

module _ (r : Redis) where
  -- The line of a text that decodes to an event.
  abbrev text_lines : Result Event → List String
  text_lines (err e) = []
  text_lines (ok event) = line_of event ∷ []

  abbrev value_lines : Option Value → List String
  value_lines none = []
  value_lines (some Value.other) = []
  value_lines (some (Value.text raw)) = text_lines (r.decode raw)

  -- The line of an entry, if its field `envelope` is a text that decodes to an event.
  abbrev pub entry_lines : Message → List String
  entry_lines msg = value_lines (lookup "envelope" msg.values)

  -- The lines of the entries that were taken up, in their order.
  abbrev pub lines : List Deed → List String
  lines [] = []
  lines (taken_up msg ∷ deeds) = entry_lines msg ++ lines deeds
  lines (counted id counts ∷ deeds) = lines deeds
  lines (handled id event e ∷ deeds) = lines deeds
  lines (looked_up id entries ∷ deeds) = lines deeds
  lines (dead_lettered id args e ∷ deeds) = lines deeds
  lines (acked id a ∷ deeds) = lines deeds

  lines-append : (xs ys : List Deed) → lines (xs ++ ys) ≡ lines xs ++ lines ys
  lines-append [] ys = refl
  lines-append (taken_up msg ∷ xs) ys =
      ap (λ l. entry_lines msg ++ l) (lines-append xs ys)
      ∙ sym (append_assoc (entry_lines msg) (lines xs) (lines ys))
  lines-append (counted id counts ∷ xs) ys = lines-append xs ys
  lines-append (handled id event e ∷ xs) ys = lines-append xs ys
  lines-append (looked_up id entries ∷ xs) ys = lines-append xs ys
  lines-append (dead_lettered id args e ∷ xs) ys = lines-append xs ys
  lines-append (acked id a ∷ xs) ys = lines-append xs ys

  abbrev raw_lines : Option String → List String
  raw_lines none = []
  raw_lines (some raw) = text_lines (r.decode raw)

  raw_lines-envelope : (msg : Message) → raw_lines (envelope msg) ≡ entry_lines msg
  unfolding envelope as_text
  raw_lines-envelope msg = of_value (lookup "envelope" msg.values)
    where
      of_value : (v : Option Value) → raw_lines (as_text v) ≡ value_lines v
      of_value none = refl
      of_value (some Value.other) = refl
      of_value (some (Value.text raw)) = refl

module _ {r : Redis} (c : Console r) where
  -- What is printed are the lines of the entries that were taken up.
  abbrev pub Told : Session r → Type 0
  Told s = c.printed s.world ≡ lines r s.log

  -- What is printed are those lines, but for the last ones, still to come.
  abbrev Owes : List String → Session r → Type 0
  Owes due s = c.printed s.world ++ due ≡ lines r s.log

  abbrev KeepsTold : Session r → Session r → Type 0
  KeepsTold s t = Told s → Told t

  -- A deed that prints nothing.
  quiet :
      (s : Session r) (deed : Deed) (w : r.World)
      → c.printed w ≡ c.printed s.world
      → lines r (deed ∷ []) ≡ []
      → KeepsTold s (record { world = w; log = s.log ++ deed ∷ [] })
  quiet s deed w same nothing told =
      same
      ∙ told
      ∙ sym (lines-append r s.log (deed ∷ []) ∙ ap (λ l. lines r s.log ++ l) nothing ∙ append-nil _)

  module _ (opts : Options) where
    ack-Told : (id : String) → Keeps KeepsTold (ack (print_event r c) opts id)
    unfolding ack call note
    ack-Told id s = quiet s (acked id _) _ (c.x_ack s.world opts.stream opts.group id) refl

    after_dead-Told :
        (id : String) (e : Option Error) → Keeps KeepsTold (after_dead (print_event r c) opts id e)
    unfolding after_dead
    after_dead-Told id (some e) s told = told
    after_dead-Told id none s told = ack-Told id s told

    dead_letter_entry-Told :
        (id raw : String) → Keeps KeepsTold (dead_letter_entry (print_event r c) opts id raw)
    unfolding dead_letter_entry add_copy call note
    dead_letter_entry-Told id raw s told = after_dead-Told id _ _ (
        quiet s (dead_lettered id (dead_args id raw) _) _ (c.x_add s.world (dead_args id raw)) refl
          told)

    looked_up-Told :
        (id : String) (entries : List Message)
        → Keeps KeepsTold (do note (looked_up id entries); ack (print_event r c) opts id)
    unfolding note
    looked_up-Told id entries s told =
        ack-Told id _ (quiet s (looked_up id entries) s.world refl refl told)

    after_range-Told :
        (id : String) (entries : Result (List Message))
        → Keeps KeepsTold (after_range (print_event r c) opts id entries)
    unfolding after_range note
    after_range-Told id (err e) s told = told
    after_range-Told id (ok []) s told = looked_up-Told id [] s told
    after_range-Told id (ok (entry ∷ [])) s told =
        dead_letter_entry-Told id _ _ (quiet s (looked_up id (entry ∷ [])) s.world refl refl told)
    after_range-Told id (ok (a ∷ b ∷ entries)) s told = looked_up-Told id (a ∷ b ∷ entries) s told

    dead_letter-Told : (id : String) → Keeps KeepsTold (dead_letter (print_event r c) opts id)
    unfolding dead_letter call
    dead_letter-Told id s told =
        after_range-Told id _ _ (c.x_range s.world opts.stream id id ∙ told)

    after_handler-Told :
        (id : String) (e : Option Error)
        → Keeps KeepsTold (after_handler (print_event r c) opts id e)
    unfolding after_handler
    after_handler-Told id (some e) s told = told
    after_handler-Told id none s told = ack-Told id s told

    after_decode-Told :
        (id raw : String) (event : Result Event) (s : Session r)
        → Owes (text_lines r event) s
        → Told (after_decode (print_event r c) opts id raw event s).1
    unfolding after_decode call note print_event event_line
    after_decode-Told id raw (err e) s due =
        dead_letter_entry-Told id raw s (sym (append-nil _) ∙ due)
    after_decode-Told id raw (ok event) s due =
        after_handler-Told id none
          (record {
            world = c.print (line_of event) s.world;
            log = s.log ++ handled id event none ∷ [];
          })
          (c.shown (line_of event) s.world
            ∙ due
            ∙ sym (lines-append r s.log (handled id event none ∷ []) ∙ append-nil _))

    after_envelope-Told :
        (id : String) (raw : Option String) (s : Session r)
        → Owes (raw_lines r raw) s
        → Told (after_envelope (print_event r c) opts id raw s).1
    unfolding after_envelope
    after_envelope-Told id none s due = dead_letter_entry-Told id "" s (sym (append-nil _) ∙ due)
    after_envelope-Told id (some raw) s due = after_decode-Told id raw (r.decode raw) s due

    handle-Told : (msg : Message) → Keeps KeepsTold (handle (print_event r c) opts msg)
    unfolding handle note
    handle-Told msg s told =
        after_envelope-Told msg.id (envelope msg)
          (record { world = s.world; log = s.log ++ taken_up msg ∷ [] })
          (ap (λ l. c.printed s.world ++ l) (raw_lines-envelope r msg)
            ∙ ap (λ l. l ++ entry_lines r msg) told
            ∙ sym (
                lines-append r s.log (taken_up msg ∷ [])
                ∙ ap (λ l. lines r s.log ++ l) (append-nil (entry_lines r msg))))

    recover_or_bury-Told :
        (msg : Message) (exhausted : Bool)
        → Keeps KeepsTold (recover_or_bury (print_event r c) opts msg exhausted)
    unfolding recover_or_bury
    recover_or_bury-Told msg true = dead_letter-Told msg.id
    recover_or_bury-Told msg false = handle-Told msg

    after_pending-Told :
        (msg : Message) (counts : Result (List ℤ))
        → Keeps KeepsTold (after_pending (print_event r c) opts msg counts)
    unfolding after_pending note
    after_pending-Told msg (err e) s told = told
    after_pending-Told msg (ok counts) s told =
        recover_or_bury-Told msg _ _ (quiet s (counted msg.id counts) s.world refl refl told)

    recover_one-Told : (msg : Message) → Keeps KeepsTold (recover_one (print_event r c) opts msg)
    unfolding recover_one call
    recover_one-Told msg s told =
        after_pending-Told msg _ _ (c.x_pending s.world (pending_args opts msg.id) ∙ told)

    run-Told : (pages n : ℕ) → Keeps KeepsTold (run (print_event r c) opts pages n)
    unfolding call
    run-Told =
        run-Keeps (print_event r c) opts KeepsTold (λ s told. told) (λ s t u h k told. k (h told))
          recover_one-Told handle-Told (λ args s told. c.x_auto_claim s.world args ∙ told)
          (λ s told. c.x_group_create s.world opts.stream opts.group "0" ∙ told) (λ s told. told)
          (λ s told. c.x_read_group s.world (read_args opts) ∙ told)
          (λ s told. c.wait s.world read_backoff ∙ told)

  with_consumer-Told :
      (pages n : ℕ) (s : Session r) (built : Result Options)
      → KeepsTold s (with_consumer r c pages n s built).1
  unfolding with_consumer
  with_consumer-Told pages n s (err e) told = told
  with_consumer-Told pages n s (ok opts) told = run-Told opts pages n s told

  -- If nobody else prints, then whatever Redis answers, in whatever order and however often it delivers
  -- an entry, `main` has printed, for each entry taken up whose field `envelope` is a text that decodes
  -- to an event, the line `type=... pipeline=... job=... step=...` with the event's own four texts, and
  -- nothing else, in the order in which the entries were taken up, after any number of rounds, if that
  -- was so before.
  pub logger_main-Told :
      (group : String) (hostname : Result String) (pid pages n : ℕ) (s : Session r)
      → Told s
      → Told (logger_main r c group hostname pid pages n s).1
  unfolding logger_main
  logger_main-Told group hostname pid pages n s = with_consumer-Told pages n s _
