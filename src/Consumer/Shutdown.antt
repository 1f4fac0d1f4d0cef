-- ===== src/Consumer/Shutdown.antt =====
-- `Run` of internal/consumer/consumer.go ends after its context does.
use odyssey_core_agent.Prelude.{
  ℕ, zero, suc, ◌+◌, ◌≤◌, ◌<◌, String, Bool, true, false, Bool-cases, List, Option, none, some, ◌≡◌,
  refl, ◌⊎◌, inl, inr, arith,
}
use odyssey_core_agent.Prelude.Error.{Error, Result, ok, err}
use odyssey_core_agent.Prelude.State.{Action}
use odyssey_core_agent.Bus.Redis.{Message, ReadArgs, ClaimArgs, Redis}
use odyssey_core_agent.Consumer.Options.{Options, read_backoff}
use odyssey_core_agent.Consumer.Session.{Session, Handler, call}
use odyssey_core_agent.Consumer.Loop.{
  Progress, returned, read_args, ensure_group, recover_stuck, after_wait, after_failure, after_read,
  after_recovery, round, rounds, after_group, run,
}
use odyssey_core_agent.Consumer.Scan.{recover_stuck-ends}
use odyssey_core_agent.Consumer.Worlds.{Respected, recover_stuck-Later, handle_streams-Later}

-- The clock of the world outside: no operation turns it back, and a read takes time.
pub record Clock (r : Redis) (handler : Handler r) : Type 0 where
  pub time : r.World → ℕ
  pub steady : Respected r handler (λ w v. time w ≤ time v)
  pub reads : (w : r.World) (args : ReadArgs) → time w < time (r.x_read_group w args).1

module _ {r : Redis} (handler : Handler r) (opts : Options) (clock : Clock r handler) (deadline : ℕ)
    (stops : (w : r.World) → deadline ≤ clock.time w → (e : Error) × (r.ctx_err w ≡ some e)) where
  abbrev InTime : ℕ → Session r → Type 0
  InTime n s = deadline ≤ clock.time s.world + n

  module _ (n : ℕ) (rest : Action (Session r) Progress)
      (ends : (s : Session r) → InTime n s → (rest s).0 ≡ returned none) where
    after_wait-ends :
        (timed_out : Bool) (s : Session r)
        → InTime n s
        → (after_wait handler opts rest timed_out s).0 ≡ returned none
    unfolding after_wait
    after_wait-ends true s h = refl
    after_wait-ends false s h = ends s h

    after_failure-ends :
        (e : Error) (stopped : Option Error) (s : Session r)
        → InTime n s
        → (after_failure handler opts rest e stopped s).0 ≡ returned none
    unfolding after_failure call
    after_failure-ends e (some why) s h = ends s h
    after_failure-ends e none s h = elim (Bool-cases (r.is_nil e)) [
      | inl empty ↦ rw empty (ends s h)
      | inr failed ↦
          let passed = clock.steady.wait s.world read_backoff in
          rw failed (after_wait-ends _ _ (omega arith))
    ]

    after_read-ends :
        (answer : Result (List (List Message))) (s : Session r)
        → InTime n s
        → (after_read handler opts rest answer s).0 ≡ returned none
    unfolding after_read call
    after_read-ends (err e) s h = after_failure-ends e _ s h
    after_read-ends (ok streams) s h =
        let passed =
          handle_streams-Later handler opts (λ w v. clock.time w ≤ clock.time v) clock.steady
            streams s in
        ends _ (omega arith)

    after_recovery-ends :
        (s : Session r)
        → InTime (suc n) s
        → (after_recovery handler opts rest true s).0 ≡ returned none
    unfolding after_recovery call
    after_recovery-ends s h =
        let passed = clock.reads s.world (read_args opts) in after_read-ends _ _ (omega arith)

  module _ (rank : String → ℕ) (bound : ℕ)
      (advances : (w : r.World) (args : ClaimArgs) (claimed : List Message) (next : String)
        → (r.x_auto_claim w args).0 ≡ ok (claimed, next)
        → (next ≡ "0-0") ⊎ ((rank args.start < rank next) × (rank next ≤ bound)))
      (starts : rank "0-0" ≤ bound) (pages : ℕ) (enough : bound < pages + rank "0-0") where
    round-ends :
        (n : ℕ) (stopped : Option Error) (s : Session r)
        → ((t : Session r) → InTime n t → (rounds handler opts pages (suc n) t).0 ≡ returned none)
        → InTime (suc n) s
        → (round handler opts pages (rounds handler opts pages (suc n)) stopped s).0 ≡ returned none
    unfolding round
    round-ends n (some why) s ends h = refl
    round-ends n none s ends h =
        let (done, t) = recover_stuck handler opts pages "0-0" s in
        let complete : done ≡ true =
          recover_stuck-ends rank bound advances handler opts pages "0-0" s starts enough in
        let passed =
          recover_stuck-Later handler opts (λ w v. clock.time w ≤ clock.time v) clock.steady pages
            "0-0" s in
        rw complete (after_recovery-ends n (rounds handler opts pages (suc n)) ends t (omega arith))

    rounds-ends :
        (n : ℕ) (s : Session r)
        → InTime n s
        → (rounds handler opts pages (suc n) s).0 ≡ returned none
    unfolding rounds call round
    rounds-ends zero s h = let (why, q) = stops s.world (omega arith) in rw q refl
    rounds-ends (suc n) s h = round-ends n (r.ctx_err s.world) s (rounds-ends n) h

    after_group-ends :
        (n : ℕ) (e : Option Error) (s : Session r)
        → InTime n s
        → (after_group handler opts pages (suc n) e s).0 ≡ returned e
    unfolding after_group
    after_group-ends n (some e) s h = refl
    after_group-ends n none s h = rounds-ends n s h

    -- Suppose that the clock of the world outside is never turned back and moves on with every read
    -- from the group, that the context has an error from the deadline on, and that every answer to a
    -- claim ends the scan or moves its cursor forward within a bound. Then `Run`, with more pages in
    -- each scan than there are cursors from its start up to the bound and more rounds than there are
    -- ticks from its call to the deadline, returns: the error of creating the group, if there is one,
    -- and nil otherwise.
    pub run-returns :
        (n : ℕ) (s : Session r)
        → deadline ≤ clock.time s.world + n
        → (run handler opts pages (suc n) s).0 ≡ returned (ensure_group handler opts s).0
    unfolding run ensure_group call
    run-returns n s h =
        let passed = clock.steady.x_group_create s.world opts.stream opts.group "0" in
        after_group-ends n _ _ (omega arith)
