-- ===== src/Consumer/Rounds.antt =====
-- Relations between the states before and after the rounds of `Run` in
-- internal/consumer/consumer.go: what holds of the treatment of one entry and of every call outside
-- holds of `Run`.
use odyssey_core_agent.Prelude.{
  ℕ, zero, suc, Bool, true, false, Bool-cases, List, Option, none, some, inl, inr,
}
use odyssey_core_agent.Prelude.Error.{Error, Result, ok, err}
use odyssey_core_agent.Prelude.State.{Action}
use odyssey_core_agent.Bus.Redis.{Message, ClaimArgs, Redis}
use odyssey_core_agent.Consumer.Options.{Options, read_backoff}
use odyssey_core_agent.Consumer.Session.{Session, Handler, call}
use odyssey_core_agent.Consumer.Entry.{handle, recover_one}
use odyssey_core_agent.Consumer.Loop.{
  Progress, read_args, ensure_group, after_wait, after_failure, after_read, after_recovery, round,
  rounds, after_group, run,
}
use odyssey_core_agent.Consumer.Steps.{Keeps, recover_stuck-Keeps, handle_streams-Keeps}

module _ {r : Redis} (handler : Handler r) (opts : Options) (R : Session r → Session r → Type 0)
    (same : (s : Session r) → R s s) (in_turn : (s t u : Session r) → R s t → R t u → R s u)
    (recovers : (msg : Message) → Keeps R (recover_one handler opts msg))
    (handles : (msg : Message) → Keeps R (handle handler opts msg))
    (claims : (args : ClaimArgs) → Keeps {r = r} R (call (λ w. r.x_auto_claim w args)))
    (groups : Keeps {r = r} R (call (λ w. r.x_group_create w opts.stream opts.group "0")))
    (asks : Keeps {r = r} R (call (λ w. (r.ctx_err w, w))))
    (reads : Keeps {r = r} R (call (λ w. r.x_read_group w (read_args opts))))
    (waits : Keeps {r = r} R (call (λ w. r.wait w read_backoff))) where
  module _ (rest : Action (Session r) Progress) (keeps : Keeps R rest) where
    after_wait-Keeps : (timed_out : Bool) → Keeps R (after_wait handler opts rest timed_out)
    unfolding after_wait
    after_wait-Keeps true s = same s
    after_wait-Keeps false s = keeps s

    after_failure-Keeps :
        (e : Error) (stopped : Option Error) → Keeps R (after_failure handler opts rest e stopped)
    unfolding after_failure call
    after_failure-Keeps e (some why) s = keeps s
    after_failure-Keeps e none s = elim (Bool-cases (r.is_nil e)) [
      | inl n ↦ rw n (keeps s)
      | inr n ↦ rw n (in_turn s _ _ (waits s) (after_wait-Keeps _ _))
    ]

    after_read-Keeps :
        (answer : Result (List (List Message))) → Keeps R (after_read handler opts rest answer)
    unfolding after_read call
    after_read-Keeps (err e) s = in_turn s _ _ (asks s) (after_failure-Keeps e _ _)
    after_read-Keeps (ok streams) s =
        in_turn s _ _
          (handle_streams-Keeps handler opts R same in_turn recovers handles claims streams s)
          (keeps _)

    after_recovery-Keeps : (done : Bool) → Keeps R (after_recovery handler opts rest done)
    unfolding after_recovery call
    after_recovery-Keeps false s = same s
    after_recovery-Keeps true s = in_turn s _ _ (reads s) (after_read-Keeps _ _)

    round-Keeps :
        (pages : ℕ) (stopped : Option Error) → Keeps R (round handler opts pages rest stopped)
    unfolding round
    round-Keeps pages (some why) s = same s
    round-Keeps pages none s =
        in_turn s _ _
          (recover_stuck-Keeps handler opts R same in_turn recovers handles claims pages "0-0" s)
          (after_recovery-Keeps _ _)

  rounds-Keeps : (pages n : ℕ) → Keeps R (rounds handler opts pages n)
  unfolding rounds call
  rounds-Keeps pages zero s = same s
  rounds-Keeps pages (suc n) s =
      in_turn s _ _ (asks s)
        (round-Keeps (rounds handler opts pages n) (rounds-Keeps pages n) pages _ _)

  after_group-Keeps :
      (pages n : ℕ) (e : Option Error) → Keeps R (after_group handler opts pages n e)
  unfolding after_group
  after_group-Keeps pages n (some e) s = same s
  after_group-Keeps pages n none s = rounds-Keeps pages n s

  pub run-Keeps : (pages n : ℕ) → Keeps R (run handler opts pages n)
  unfolding run ensure_group call
  run-Keeps pages n s = in_turn s _ _ (groups s) (after_group-Keeps pages n _ _)
