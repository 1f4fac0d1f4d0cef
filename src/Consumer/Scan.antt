-- ===== src/Consumer/Scan.antt =====
-- The scan for stuck entries in `recoverStuck` of internal/consumer/consumer.go ends.
use odyssey_core_agent.Prelude.{
  ℕ, zero, suc, ◌+◌, ◌≤◌, ◌<◌, String, Bool, true, Bool-cases, List, ◌≡◌, refl, ◌⊎◌, inl, inr, ◌==◌,
  eq_iff, arith,
}
use odyssey_core_agent.Prelude.Error.{Result, ok, err}
use odyssey_core_agent.Prelude.State.{Action}
use odyssey_core_agent.Bus.Redis.{Message, ClaimArgs, Redis}
use odyssey_core_agent.Consumer.Options.{Options}
use odyssey_core_agent.Consumer.Session.{Session, Handler, call}
use odyssey_core_agent.Consumer.Loop.{claim_args, next_page, after_claim, recover_stuck}

-- Redis moves the cursor of a scan forward, up to a bound, or ends the scan.
module _ {r : Redis} (rank : String → ℕ) (bound : ℕ)
    (advances : (w : r.World) (args : ClaimArgs) (claimed : List Message) (next : String)
      → (r.x_auto_claim w args).0 ≡ ok (claimed, next)
      → (next ≡ "0-0") ⊎ ((rank args.start < rank next) × (rank next ≤ bound)))
    (handler : Handler r) (opts : Options) where
  next_page-ends :
      (rest : String → Action (Session r) Bool) (next : String) (s : Session r)
      → (next ≡ "0-0") ⊎ ((rest next s).0 ≡ true)
      → (next_page handler opts rest next s).0 ≡ true
  unfolding next_page
  next_page-ends rest next s (inl e) = rw ((eq_iff next "0-0").1 e) refl
  next_page-ends rest next s (inr e) = elim (Bool-cases (next == "0-0")) [
    | inl last ↦ rw last refl
    | inr more ↦ rw more e
  ]

  after_claim-ends :
      (rest : String → Action (Session r) Bool) (answer : Result (List Message × String))
      (s : Session r)
      → ((claimed : List Message) (next : String)
          → answer ≡ ok (claimed, next)
          → (next ≡ "0-0") ⊎ ((t : Session r) → (rest next t).0 ≡ true))
      → (after_claim handler opts rest answer s).0 ≡ true
  unfolding after_claim
  after_claim-ends rest (err e) s h = refl
  after_claim-ends rest (ok (claimed, next)) s h = elim (h claimed next refl) [
    | inl last ↦ next_page-ends rest next _ (inl last)
    | inr more ↦ next_page-ends rest next _ (inr (more _))
  ]

  -- If every answer to a claim either ends the scan or moves its cursor forward, by a rank of cursors
  -- that stays within a bound, then the scan from a cursor within the bound is over once it has more
  -- pages than there are ranks left, whatever the entries are and whatever the handler does.
  pub recover_stuck-ends :
      (pages : ℕ) (start : String) (s : Session r)
      → rank start ≤ bound
      → bound < pages + rank start
      → (recover_stuck handler opts pages start s).0 ≡ true
  unfolding recover_stuck call claim_args
  recover_stuck-ends zero start s below enough = absurd (omega arith)
  recover_stuck-ends (suc pages) start s below enough =
      after_claim-ends (recover_stuck handler opts pages) _ _ (λ claimed next e.
        elim (advances s.world (claim_args opts start) claimed next e) [
          | inl last ↦ inl last
          | inr (forward, within) ↦ inr (λ t. recover_stuck-ends pages next t within (omega arith))
        ])
