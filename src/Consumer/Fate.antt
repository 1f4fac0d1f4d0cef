-- ===== src/Consumer/Fate.antt =====
-- What does happen to one entry of the stream in internal/consumer/consumer.go.
use odyssey_core_agent.Prelude.{
  String, Bool, true, false, List, [], ◌∷◌, ◌++◌, append_assoc, append-nil, Option, none, some, ◌≡◌,
  ◌≢◌, refl, sym, ◌∙◌, ap, inl, inr, ℤ,
}
use odyssey_core_agent.Prelude.Error.{Error, Result, ok, err}
use odyssey_core_agent.Domain.Pipeline.{Event}
use odyssey_core_agent.Bus.Redis.{Message, Redis}
use odyssey_core_agent.Consumer.Options.{Options}
use odyssey_core_agent.Consumer.Session.{
  Deed, counted, taken_up, handled, looked_up, dead_lettered, acked, Session, Handler, call, note,
}
use odyssey_core_agent.Consumer.Entry.{
  envelope, text_or_empty, dead_args, is_exhausted, ack, add_copy, after_dead, dead_letter_entry,
  after_range, dead_letter, after_handler, after_decode, after_envelope, handle, recover_or_bury,
  after_pending, recover_one,
}
use odyssey_core_agent.Consumer.Outcomes.{
  Grew, HasText, KeepsText, copy_of, Buried, parked, moved, Poison, Carries, Fate, poisoned,
  refused, done, GivenUp, unread, not_one, buried, Recovered, uncounted, retried, exhausted,
}
use odyssey_core_agent.Consumer.Reading.{
  envelope-some, envelope-none, text_or_empty-KeepsText, is_exhausted-Exceeds,
  is_exhausted-not_Exceeds,
}

-- Deeds of one shape behind those already known to be new.
behind :
    {r : Redis} {P Q : List Deed → Type 0} (front : List Deed) (s t u : Session r)
    → t.log ≡ s.log ++ front
    → ((deeds : List Deed) → P deeds → Q (front ++ deeds))
    → Grew P t u
    → Grew Q s u
behind front s t u h f g = record {
  new = front ++ g.new;
  log = g.log ∙ ap (λ l. l ++ g.new) h ∙ append_assoc s.log front g.new;
  shape = f g.new g.shape;
}

same_log :
    {r : Redis} {P : List Deed → Type 0} (s t : Session r) → t.log ≡ s.log → P [] → Grew P s t
same_log s t h p = record { new = []; log = h ∙ sym (append-nil s.log); shape = p }

pub reshape :
    {r : Redis} {P Q : List Deed → Type 0} {s t : Session r}
    → ((deeds : List Deed) → P deeds → Q deeds)
    → Grew P s t
    → Grew Q s t
reshape f g = record { new = g.new; log = g.log; shape = f g.new g.shape }

-- Exactly one acknowledgement.
abbrev Acked : String → List Deed → Type 0
Acked id deeds = (a : Option Error) × (deeds ≡ acked id a ∷ [])

module _ {r : Redis} (handler : Handler r) (opts : Options) where
  ack-Acked : (id : String) (s : Session r) → Grew (Acked id) s (ack handler opts id s).1
  unfolding ack call note
  ack-Acked id s = record { new = _; log = refl; shape = (_, refl) }

  after_dead-Buried :
      (id raw : String) (e : Option Error) (s t : Session r)
      → t.log ≡ s.log ++ dead_lettered id (copy_of id raw) e ∷ []
      → Grew (Buried id raw) s (after_dead handler opts id e t).1
  unfolding after_dead
  after_dead-Buried id raw (some e) s t h = record { new = _; log = h; shape = parked e refl }
  after_dead-Buried id raw none s t h =
      behind (dead_lettered id (copy_of id raw) none ∷ []) s t _ h
        (λ deeds (a, q). moved a (ap (λ l. dead_lettered id (copy_of id raw) none ∷ l) q))
        (ack-Acked id t)

  dead_letter_entry-Buried :
      (id raw : String) (s : Session r)
      → Grew (Buried id raw) s (dead_letter_entry handler opts id raw s).1
  unfolding dead_letter_entry add_copy dead_args call note
  dead_letter_entry-Buried id raw s = after_dead-Buried id raw _ s _ refl

  not_one-GivenUp :
      (msg : Message) (entries : List Message) (s : Session r)
      → ((entry : Message) → entries ≢ entry ∷ [])
      → Grew (GivenUp r msg) s (ack handler opts msg.id (note (looked_up msg.id entries) s).1).1
  unfolding note
  not_one-GivenUp msg entries s other =
      behind (looked_up msg.id entries ∷ []) s _ _ refl
        (λ deeds (a, q). not_one entries a other (ap (λ l. looked_up msg.id entries ∷ l) q))
        (ack-Acked msg.id _)

  after_range-GivenUp :
      (msg : Message) (entries : Result (List Message)) (s : Session r)
      → Grew (GivenUp r msg) s (after_range handler opts msg.id entries s).1
  unfolding after_range note
  after_range-GivenUp msg (err e) s = same_log s s refl (unread refl)
  after_range-GivenUp msg (ok []) s = not_one-GivenUp msg [] s (λ entry h. cc)
  after_range-GivenUp msg (ok (entry ∷ [])) s =
      behind (looked_up msg.id (entry ∷ []) ∷ []) s _ _ refl
        (λ deeds b.
          buried entry (text_or_empty (envelope entry)) deeds (text_or_empty-KeepsText entry _ refl)
            b refl)
        (dead_letter_entry-Buried msg.id _ _)
  after_range-GivenUp msg (ok (a ∷ b ∷ entries)) s =
      not_one-GivenUp msg (a ∷ b ∷ entries) s (λ entry h. cc)

  dead_letter-GivenUp :
      (msg : Message) (s : Session r) → Grew (GivenUp r msg) s (dead_letter handler opts msg.id s).1
  unfolding dead_letter call
  dead_letter-GivenUp msg s =
      behind [] s _ _ (sym (append-nil s.log)) (λ deeds g. g) (after_range-GivenUp msg _ _)

  after_handler-Fate :
      (msg : Message) (event : Event) (e : Option Error) (s t : Session r)
      → Carries r msg event
      → t.log ≡ s.log ++ taken_up msg ∷ handled msg.id event e ∷ []
      → Grew (Fate r msg) s (after_handler handler opts msg.id e t).1
  unfolding after_handler
  after_handler-Fate msg event (some e) s t c h = record {
    new = _;
    log = h;
    shape = refused event e c refl;
  }
  after_handler-Fate msg event none s t c h =
      behind (taken_up msg ∷ handled msg.id event none ∷ []) s t _ h
        (λ deeds (a, q). done event a c (ap (λ l. taken_up msg ∷ handled msg.id event none ∷ l) q))
        (ack-Acked msg.id t)

  -- The entry is taken up, and is buried.
  taken_up-Fate :
      (msg : Message) (raw : String) (s t : Session r)
      → t.log ≡ s.log ++ taken_up msg ∷ []
      → Poison r msg
      → KeepsText msg raw
      → Grew (Fate r msg) s (dead_letter_entry handler opts msg.id raw t).1
  taken_up-Fate msg raw s t h p k =
      behind (taken_up msg ∷ []) s t _ h (λ deeds b. poisoned raw deeds p k b refl)
        (dead_letter_entry-Buried msg.id raw t)

  after_decode-Fate :
      (msg : Message) (raw : String) (event : Result Event) (s t : Session r)
      → t.log ≡ s.log ++ taken_up msg ∷ []
      → HasText msg raw
      → r.decode raw ≡ event
      → Grew (Fate r msg) s (after_decode handler opts msg.id raw event t).1
  unfolding after_decode call note
  after_decode-Fate msg raw (err e) s t l h k =
      taken_up-Fate msg raw s t l (inr (raw, e, h, k)) (inl h)
  after_decode-Fate msg raw (ok event) s t l h k =
      after_handler-Fate msg event _ s _ (raw, h, k)
        (ap (λ l. l ++ handled msg.id event (handler t.world event).0 ∷ []) l
          ∙ append_assoc s.log (taken_up msg ∷ []) _)

  after_envelope-Fate :
      (msg : Message) (raw : Option String) (s t : Session r)
      → t.log ≡ s.log ++ taken_up msg ∷ []
      → envelope msg ≡ raw
      → Grew (Fate r msg) s (after_envelope handler opts msg.id raw t).1
  unfolding after_envelope
  after_envelope-Fate msg none s t l h =
      let no_text = envelope-none msg h in
      taken_up-Fate msg "" s t l (inl no_text) (inr (no_text, refl))
  after_envelope-Fate msg (some raw) s t l h =
      after_decode-Fate msg raw (r.decode raw) s t l (envelope-some msg h) refl

  -- Whatever Redis and the handler answer, handling an entry adds its fate to the log: an entry whose
  -- field `envelope` is no text, or one that does not decode, never reaches the handler, and is
  -- acknowledged only behind a successful XADD of that text, empty if there is none, with the entry's
  -- ID, to the stream odyssey:dead; any other is given to the handler as the event that its text
  -- decodes to, and acknowledged exactly if the handler succeeds.
  pub handle-Fate :
      (msg : Message) (s : Session r) → Grew (Fate r msg) s (handle handler opts msg s).1
  unfolding handle note
  handle-Fate msg s = after_envelope-Fate msg (envelope msg) s _ refl refl

  recover_or_bury-Recovered :
      (msg : Message) (counts : List ℤ) (exhausted_now : Bool) (s t : Session r)
      → is_exhausted opts counts ≡ exhausted_now
      → t.log ≡ s.log ++ counted msg.id counts ∷ []
      → Grew (Recovered r msg opts) s (recover_or_bury handler opts msg exhausted_now t).1
  unfolding recover_or_bury
  recover_or_bury-Recovered msg counts true s t e h =
      behind (counted msg.id counts ∷ []) s t _ h
        (λ deeds g. exhausted counts deeds (is_exhausted-Exceeds opts counts e) g refl)
        (dead_letter-GivenUp msg t)
  recover_or_bury-Recovered msg counts false s t e h =
      behind (counted msg.id counts ∷ []) s t _ h
        (λ deeds f. retried counts deeds (is_exhausted-not_Exceeds opts counts e) f refl)
        (handle-Fate msg t)

  after_pending-Recovered :
      (msg : Message) (counts : Result (List ℤ)) (s : Session r)
      → Grew (Recovered r msg opts) s (after_pending handler opts msg counts s).1
  unfolding after_pending note
  after_pending-Recovered msg (err e) s = same_log s s refl (uncounted refl)
  after_pending-Recovered msg (ok counts) s = recover_or_bury-Recovered msg counts _ s _ refl refl

  pub recover_one-Recovered :
      (msg : Message) (s : Session r)
      → Grew (Recovered r msg opts) s (recover_one handler opts msg s).1
  unfolding recover_one call
  recover_one-Recovered msg s =
      behind [] s _ _ (sym (append-nil s.log)) (λ deeds g. g) (after_pending-Recovered msg _ _)
