-- ===== src/Consumer/Steps.antt =====
-- Relations between the states before and after the parts of a round of `Run` in
-- internal/consumer/consumer.go: what holds of the treatment of one entry and of a claim holds of the
-- whole scan and of all messages read.
use odyssey_core_agent.Prelude.{
  ℕ, zero, suc, String, Bool, Bool-cases, List, [], ◌∷◌, inl, inr, ◌==◌,
}
use odyssey_core_agent.Prelude.Error.{Result, ok, err}
use odyssey_core_agent.Prelude.State.{Action}
use odyssey_core_agent.Bus.Redis.{Message, ClaimArgs, Redis}
use odyssey_core_agent.Consumer.Options.{Options}
use odyssey_core_agent.Consumer.Session.{Session, Handler, call}
use odyssey_core_agent.Consumer.Entry.{handle, recover_one}
use odyssey_core_agent.Consumer.Loop.{
  recover_all, next_page, after_claim, recover_stuck, handle_all, handle_streams,
}

-- An action leads from every state to a related one.
abbrev pub Keeps :
    {r : Redis} → (Session r → Session r → Type 0) → {A : Type 0} → Action (Session r) A → Type 0
Keeps {r} R m = (s : Session r) → R s (m s).1

module _ {r : Redis} (handler : Handler r) (opts : Options) (R : Session r → Session r → Type 0)
    (same : (s : Session r) → R s s) (in_turn : (s t u : Session r) → R s t → R t u → R s u)
    (recovers : (msg : Message) → Keeps R (recover_one handler opts msg))
    (handles : (msg : Message) → Keeps R (handle handler opts msg))
    (claims : (args : ClaimArgs) → Keeps {r = r} R (call (λ w. r.x_auto_claim w args))) where
  recover_all-Keeps : (msgs : List Message) → Keeps R (recover_all handler opts msgs)
  unfolding recover_all
  recover_all-Keeps [] s = same s
  recover_all-Keeps (msg ∷ msgs) s = in_turn s _ _ (recovers msg s) (recover_all-Keeps msgs _)

  next_page-Keeps :
      (rest : String → Action (Session r) Bool) (next : String)
      → ((c : String) → Keeps R (rest c))
      → Keeps R (next_page handler opts rest next)
  unfolding next_page
  next_page-Keeps rest next h s = elim (Bool-cases (next == "0-0")) [
    | inl e ↦ rw e (same s)
    | inr e ↦ rw e (h next s)
  ]

  after_claim-Keeps :
      (rest : String → Action (Session r) Bool) (answer : Result (List Message × String))
      → ((c : String) → Keeps R (rest c))
      → Keeps R (after_claim handler opts rest answer)
  unfolding after_claim
  after_claim-Keeps rest (err e) h s = same s
  after_claim-Keeps rest (ok (claimed, next)) h s =
      in_turn s _ _ (recover_all-Keeps claimed s) (next_page-Keeps rest next h _)

  pub recover_stuck-Keeps :
      (pages : ℕ) (start : String) → Keeps R (recover_stuck handler opts pages start)
  unfolding recover_stuck
  recover_stuck-Keeps zero start s = same s
  recover_stuck-Keeps (suc pages) start s =
      in_turn s _ _ (claims _ s)
        (after_claim-Keeps (recover_stuck handler opts pages) _ (recover_stuck-Keeps pages) _)

  handle_all-Keeps : (msgs : List Message) → Keeps R (handle_all handler opts msgs)
  unfolding handle_all
  handle_all-Keeps [] s = same s
  handle_all-Keeps (msg ∷ msgs) s = in_turn s _ _ (handles msg s) (handle_all-Keeps msgs _)

  pub handle_streams-Keeps :
      (streams : List (List Message)) → Keeps R (handle_streams handler opts streams)
  unfolding handle_streams
  handle_streams-Keeps [] s = same s
  handle_streams-Keeps (msgs ∷ streams) s =
      in_turn s _ _ (handle_all-Keeps msgs s) (handle_streams-Keeps streams _)
