-- ===== src/Consumer/Worlds.antt =====
-- What holds from one state of the world outside to the next, in internal/consumer/consumer.go: a
-- relation that every call outside respects is respected by every part of `Run`.
use odyssey_core_agent.Prelude.{
  ℕ, String, Bool, true, false, List, [], ◌∷◌, ◌++◌, Option, none, some, ℤ,
}
use odyssey_core_agent.Prelude.Error.{Error, Result, ok, err}
use odyssey_core_agent.Domain.Pipeline.{Event}
use odyssey_core_agent.Bus.Redis.{Message, ReadArgs, ClaimArgs, PendingArgs, AddArgs, Redis}
use odyssey_core_agent.Consumer.Options.{Options, read_backoff}
use odyssey_core_agent.Consumer.Session.{dead_lettered, handled, Session, Handler, call, note}
use odyssey_core_agent.Consumer.Entry.{
  dead_args, pending_args, ack, add_copy, after_dead, dead_letter_entry, after_range, dead_letter,
  after_handler, after_decode, after_envelope, handle, recover_or_bury, after_pending, recover_one,
}
use odyssey_core_agent.Consumer.Loop.{recover_stuck, handle_streams, read_args, run}
use odyssey_core_agent.Consumer.Steps.{Keeps, recover_stuck-Keeps, handle_streams-Keeps}
use odyssey_core_agent.Consumer.Rounds.{run-Keeps}

-- Every operation of the world outside leads to a related state.
pub record Respected (r : Redis) (handler : Handler r) (R : r.World → r.World → Type 0)
    : Type 0 where
  pub same : (w : r.World) → R w w
  pub in_turn : (u v w : r.World) → R u v → R v w → R u w
  pub x_group_create :
      (w : r.World) (stream group start : String) → R w (r.x_group_create w stream group start).1
  pub x_read_group : (w : r.World) (args : ReadArgs) → R w (r.x_read_group w args).1
  pub x_auto_claim : (w : r.World) (args : ClaimArgs) → R w (r.x_auto_claim w args).1
  pub x_pending : (w : r.World) (args : PendingArgs) → R w (r.x_pending w args).1
  pub x_range : (w : r.World) (stream start stop : String) → R w (r.x_range w stream start stop).1
  pub x_add : (w : r.World) (args : AddArgs) → R w (r.x_add w args).1
  pub x_ack : (w : r.World) (stream group id : String) → R w (r.x_ack w stream group id).1
  pub wait : (w : r.World) (period : ℕ) → R w (r.wait w period).1
  pub handling : (w : r.World) (event : Event) → R w (handler w event).1

module _ {r : Redis} (handler : Handler r) (opts : Options) (R : r.World → r.World → Type 0)
    (respected : Respected r handler R) where
  abbrev pub Later : Session r → Session r → Type 0
  Later s t = R s.world t.world

  ack-Later : (id : String) → Keeps Later (ack {r = r} handler opts id)
  unfolding ack call note
  ack-Later id s = respected.x_ack s.world opts.stream opts.group id

  after_dead-Later :
      (id : String) (e : Option Error) → Keeps Later (after_dead {r = r} handler opts id e)
  unfolding after_dead
  after_dead-Later id (some e) s = respected.same s.world
  after_dead-Later id none s = ack-Later id s

  dead_letter_entry-Later :
      (id raw : String) → Keeps Later (dead_letter_entry {r = r} handler opts id raw)
  unfolding dead_letter_entry add_copy call note
  dead_letter_entry-Later id raw s =
      let (e, w) = r.x_add s.world (dead_args id raw) in
      let passed = respected.x_add s.world (dead_args id raw) in
      let t : Session r = record {
        world = w;
        log = s.log ++ dead_lettered id (dead_args id raw) e ∷ [];
      } in
      let later = after_dead-Later id e t in respected.in_turn s.world _ _ passed later

  after_range-Later :
      (id : String) (entries : Result (List Message))
      → Keeps Later (after_range {r = r} handler opts id entries)
  unfolding after_range note
  after_range-Later id (err e) s = respected.same s.world
  after_range-Later id (ok []) s = ack-Later id _
  after_range-Later id (ok (entry ∷ [])) s = dead_letter_entry-Later id _ _
  after_range-Later id (ok (a ∷ b ∷ entries)) s = ack-Later id _

  dead_letter-Later : (id : String) → Keeps Later (dead_letter {r = r} handler opts id)
  unfolding dead_letter call
  dead_letter-Later id s =
      let passed = respected.x_range s.world opts.stream id id in
      let (entries, w) = r.x_range s.world opts.stream id id in
      let later = after_range-Later id entries (record s { world = w }) in
      respected.in_turn s.world _ _ passed later

  after_handler-Later :
      (id : String) (e : Option Error) → Keeps Later (after_handler {r = r} handler opts id e)
  unfolding after_handler
  after_handler-Later id (some e) s = respected.same s.world
  after_handler-Later id none s = ack-Later id s

  after_decode-Later :
      (id raw : String) (event : Result Event)
      → Keeps Later (after_decode {r = r} handler opts id raw event)
  unfolding after_decode call note
  after_decode-Later id raw (err e) s = dead_letter_entry-Later id raw s
  after_decode-Later id raw (ok event) s =
      let passed = respected.handling s.world event in
      let (e, w) = handler s.world event in
      let t : Session r = record { world = w; log = s.log ++ handled id event e ∷ [] } in
      let later = after_handler-Later id e t in respected.in_turn s.world _ _ passed later

  after_envelope-Later :
      (id : String) (raw : Option String) → Keeps Later (after_envelope {r = r} handler opts id raw)
  unfolding after_envelope
  after_envelope-Later id none s = dead_letter_entry-Later id "" s
  after_envelope-Later id (some raw) s = after_decode-Later id raw _ s

  pub handle-Later : (msg : Message) → Keeps Later (handle {r = r} handler opts msg)
  unfolding handle note
  handle-Later msg s = after_envelope-Later msg.id _ _

  recover_or_bury-Later :
      (msg : Message) (exhausted : Bool)
      → Keeps Later (recover_or_bury {r = r} handler opts msg exhausted)
  unfolding recover_or_bury
  recover_or_bury-Later msg true s = dead_letter-Later msg.id s
  recover_or_bury-Later msg false s = handle-Later msg s

  after_pending-Later :
      (msg : Message) (counts : Result (List ℤ))
      → Keeps Later (after_pending {r = r} handler opts msg counts)
  unfolding after_pending note
  after_pending-Later msg (err e) s = respected.same s.world
  after_pending-Later msg (ok counts) s = recover_or_bury-Later msg _ _

  pub recover_one-Later : (msg : Message) → Keeps Later (recover_one {r = r} handler opts msg)
  unfolding recover_one call
  recover_one-Later msg s =
      let passed = respected.x_pending s.world (pending_args opts msg.id) in
      let (counts, w) = r.x_pending s.world (pending_args opts msg.id) in
      let later = after_pending-Later msg counts (record s { world = w }) in
      respected.in_turn s.world _ _ passed later

  claim-Later : (args : ClaimArgs) → Keeps {r = r} Later (call (λ w. r.x_auto_claim w args))
  unfolding call
  claim-Later args s = respected.x_auto_claim s.world args

  pub again : (s t u : Session r) → Later s t → Later t u → Later s u
  again s t u h k = respected.in_turn s.world t.world u.world h k

  pub recover_stuck-Later :
      (pages : ℕ) (start : String) → Keeps Later (recover_stuck {r = r} handler opts pages start)
  recover_stuck-Later =
      recover_stuck-Keeps handler opts Later (λ s. respected.same s.world) again recover_one-Later
        handle-Later claim-Later

  pub handle_streams-Later :
      (streams : List (List Message)) → Keeps Later (handle_streams {r = r} handler opts streams)
  handle_streams-Later =
      handle_streams-Keeps handler opts Later (λ s. respected.same s.world) again recover_one-Later
        handle-Later claim-Later

  -- A relation that every call outside respects holds from the state before `Run` to the one after.
  pub run-Later : (pages n : ℕ) → Keeps Later (run {r = r} handler opts pages n)
  unfolding call
  run-Later =
      run-Keeps handler opts Later (λ s. respected.same s.world) again recover_one-Later
        handle-Later claim-Later (λ s. respected.x_group_create s.world opts.stream opts.group "0")
        (λ s. respected.same s.world) (λ s. respected.x_read_group s.world (read_args opts))
        (λ s. respected.wait s.world read_backoff)
