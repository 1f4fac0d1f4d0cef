-- ===== src/Consumer/Acks.antt =====
-- When `Run` of internal/consumer/consumer.go acknowledges an entry.
use odyssey_core_agent.Prelude.{
  ℕ, String, List, [], ◌∷◌, ◌++◌, append_assoc, append-nil, Option, none, some, ◌≡◌, ◌≢◌, ◌⊎◌, inl,
  inr, refl, sym, ◌∙◌, ap, subst,
}
use odyssey_core_agent.Domain.Pipeline.{Event}
use odyssey_core_agent.Bus.Redis.{Message, ClaimArgs, Redis}
use odyssey_core_agent.Consumer.Options.{Options}
use odyssey_core_agent.Consumer.Session.{
  Deed, counted, taken_up, handled, looked_up, dead_lettered, acked, Session, Handler, call,
}
use odyssey_core_agent.Consumer.Loop.{run}
use odyssey_core_agent.Consumer.Entry.{handle, recover_one}
use odyssey_core_agent.Consumer.Steps.{Keeps}
use odyssey_core_agent.Consumer.Rounds.{run-Keeps}
use odyssey_core_agent.Consumer.Outcomes.{
  Grew, KeepsText, copy_of, Buried, parked, moved, Carries, Fate, poisoned, refused, done, GivenUp,
  unread, not_one, buried, Recovered, uncounted, retried, exhausted,
}
use odyssey_core_agent.Consumer.Fate.{reshape, handle-Fate, recover_one-Recovered}

module _ (r : Redis) where
  -- The two deeds before an acknowledgement that allow it: the entry was taken up and the handler
  -- agreed to the event that it carries; the entry was taken up, or was the one that the stream has,
  -- and a copy of its text was added to the dead-letter stream; or the stream was asked, and did not
  -- answer with exactly one entry.
  pub data Settled (id : String) (before last : Option Deed) : Type 0 where
    handled_well :
        (msg : Message) (event : Event)
        → msg.id ≡ id
        → Carries r msg event
        → before ≡ some (taken_up msg)
        → last ≡ some (handled id event none)
        → Settled id before last
    copied :
        (msg : Message) (raw : String)
        → KeepsText msg raw
        → ((msg.id ≡ id) × (before ≡ some (taken_up msg)))
          ⊎ (before ≡ some (looked_up id (msg ∷ [])))
        → last ≡ some (dead_lettered id (copy_of id raw) none)
        → Settled id before last
    nothing_to_copy :
        (entries : List Message)
        → ((entry : Message) → entries ≢ entry ∷ [])
        → last ≡ some (looked_up id entries)
        → Settled id before last

  -- Behind the deeds `before` and `last`, every acknowledgement follows directly on deeds that settle
  -- its entry.
  abbrev pub Justified : Option Deed → Option Deed → List Deed → Type 0
  Justified before last [] = Unit
  Justified before last (acked id a ∷ deeds) =
      Settled id before last × Justified last (some (acked id a)) deeds
  Justified before last (counted id counts ∷ deeds) =
      Justified last (some (counted id counts)) deeds
  Justified before last (taken_up msg ∷ deeds) = Justified last (some (taken_up msg)) deeds
  Justified before last (handled id event e ∷ deeds) =
      Justified last (some (handled id event e)) deeds
  Justified before last (looked_up id entries ∷ deeds) =
      Justified last (some (looked_up id entries)) deeds
  Justified before last (dead_lettered id args e ∷ deeds) =
      Justified last (some (dead_lettered id args e)) deeds

-- There was no deed, or the same.
abbrev Fits : Option Deed → Option Deed → Type 0
Fits x y = (x ≡ none) ⊎ (x ≡ y)

fits : {x y : Option Deed} {deed : Deed} → Fits x y → x ≡ some deed → y ≡ some deed
fits (inl h) e = cc
fits (inr h) e = sym h ∙ e

module _ (r : Redis) where
  Settled-Fits :
      {b b' l l' : Option Deed} (id : String)
      → Fits b b'
      → Fits l l'
      → Settled r id b l
      → Settled r id b' l'
  Settled-Fits id f g (handled_well msg event e c p q) =
      handled_well msg event e c (fits f p) (fits g q)
  Settled-Fits id f g (copied msg raw k (inl (e, p)) q) =
      copied msg raw k (inl (e, fits f p)) (fits g q)
  Settled-Fits id f g (copied msg raw k (inr p) q) = copied msg raw k (inr (fits f p)) (fits g q)
  Settled-Fits id f g (nothing_to_copy entries n q) = nothing_to_copy entries n (fits g q)

  -- What holds with nothing before holds behind anything.
  Justified-Fits :
      {b b' l l' : Option Deed} (deeds : List Deed)
      → Fits b b'
      → Fits l l'
      → Justified r b l deeds
      → Justified r b' l' deeds
  Justified-Fits [] f g h = tt
  Justified-Fits (acked id a ∷ deeds) f g h =
      (Settled-Fits id f g h.0, Justified-Fits deeds g (inr refl) h.1)
  Justified-Fits (counted id counts ∷ deeds) f g h = Justified-Fits deeds g (inr refl) h
  Justified-Fits (taken_up msg ∷ deeds) f g h = Justified-Fits deeds g (inr refl) h
  Justified-Fits (handled id event e ∷ deeds) f g h = Justified-Fits deeds g (inr refl) h
  Justified-Fits (looked_up id entries ∷ deeds) f g h = Justified-Fits deeds g (inr refl) h
  Justified-Fits (dead_lettered id args e ∷ deeds) f g h = Justified-Fits deeds g (inr refl) h

  Justified-append :
      (b l : Option Deed) (xs ys : List Deed)
      → Justified r b l xs
      → Justified r none none ys
      → Justified r b l (xs ++ ys)
  Justified-append b l [] ys h k = Justified-Fits ys (inl refl) (inl refl) k
  Justified-append b l (acked id a ∷ xs) ys h k = (h.0, Justified-append _ _ xs ys h.1 k)
  Justified-append b l (counted id counts ∷ xs) ys h k = Justified-append _ _ xs ys h k
  Justified-append b l (taken_up msg ∷ xs) ys h k = Justified-append _ _ xs ys h k
  Justified-append b l (handled id event e ∷ xs) ys h k = Justified-append _ _ xs ys h k
  Justified-append b l (looked_up id entries ∷ xs) ys h k = Justified-append _ _ xs ys h k
  Justified-append b l (dead_lettered id args e ∷ xs) ys h k = Justified-append _ _ xs ys h k

  -- A burial behind the deed that shows the entry's text.
  Justified-Buried :
      (id : String) (msg : Message) (raw : String) (shown : Deed) (deeds : List Deed)
      → KeepsText msg raw
      → ((msg.id ≡ id) × (some shown ≡ some (taken_up msg)))
        ⊎ (some shown ≡ some (looked_up id (msg ∷ [])))
      → Buried id raw deeds
      → Justified r none (some shown) deeds
  Justified-Buried id msg raw shown deeds k w (parked e q) =
      subst (Justified r none (some shown)) (sym q) tt
  Justified-Buried id msg raw shown deeds k w (moved a q) =
      subst (Justified r none (some shown)) (sym q) (copied msg raw k w refl, tt)

module _ {r : Redis} where
  Justified-Fate :
      (msg : Message) (deeds : List Deed) → Fate r msg deeds → Justified r none none deeds
  Justified-Fate msg deeds (poisoned raw rest p k b q) =
      subst (Justified r none none) (sym q)
        (Justified-Buried r msg.id msg raw (taken_up msg) rest k (inl (refl, refl)) b)
  Justified-Fate msg deeds (refused event e c q) = subst (Justified r none none) (sym q) tt
  Justified-Fate msg deeds (done event a c q) =
      subst (Justified r none none) (sym q) (handled_well msg event refl c refl refl, tt)

  Justified-GivenUp :
      (msg : Message) (deeds : List Deed) → GivenUp r msg deeds → Justified r none none deeds
  Justified-GivenUp msg deeds (unread q) = subst (Justified r none none) (sym q) tt
  Justified-GivenUp msg deeds (not_one entries a n q) =
      subst (Justified r none none) (sym q) (nothing_to_copy entries n refl, tt)
  Justified-GivenUp msg deeds (buried entry raw rest k b q) =
      subst (Justified r none none) (sym q)
        (Justified-Buried r msg.id entry raw (looked_up msg.id (entry ∷ [])) rest k (inr refl) b)

  Justified-Recovered :
      (msg : Message) (opts : Options) (deeds : List Deed)
      → Recovered r msg opts deeds
      → Justified r none none deeds
  Justified-Recovered msg opts deeds (uncounted q) = subst (Justified r none none) (sym q) tt
  Justified-Recovered msg opts deeds (retried counts rest e f q) =
      subst (Justified r none none) (sym q)
        (Justified-Fits r rest (inl refl) (inl refl) (Justified-Fate msg rest f))
  Justified-Recovered msg opts deeds (exhausted counts rest e g q) =
      subst (Justified r none none) (sym q)
        (Justified-Fits r rest (inl refl) (inl refl) (Justified-GivenUp msg rest g))

  -- From `s` to `t` the log grew by justified deeds.
  abbrev pub Sound : Session r → Session r → Type 0
  Sound s t = Grew (Justified r none none) s t

  stay : (s t : Session r) → t.log ≡ s.log → Sound s t
  stay s t h = record { new = []; log = h ∙ sym (append-nil s.log); shape = tt }

  in_turn : (s t u : Session r) → Sound s t → Sound t u → Sound s u
  in_turn s t u g h = record {
    new = g.new ++ h.new;
    log = h.log ∙ ap (λ l. l ++ h.new) g.log ∙ append_assoc s.log g.new h.new;
    shape = Justified-append r none none g.new h.new g.shape h.shape;
  }

module _ {r : Redis} (handler : Handler r) (opts : Options) where
  recovers_soundly : (msg : Message) → Keeps Sound (recover_one {r = r} handler opts msg)
  recovers_soundly msg s =
      reshape (Justified-Recovered msg opts) (recover_one-Recovered handler opts msg s)

  handles_soundly : (msg : Message) → Keeps Sound (handle {r = r} handler opts msg)
  handles_soundly msg s = reshape (Justified-Fate msg) (handle-Fate handler opts msg s)

  claims_soundly : (args : ClaimArgs) → Keeps {r = r} Sound (call (λ w. r.x_auto_claim w args))
  unfolding call
  claims_soundly args s = stay s _ refl

  -- Whatever Redis and the handler answer, for any number of rounds, `Run` acknowledges an entry only
  -- directly after its handler succeeded on the event that its text decodes to; directly after a
  -- successful XADD of its text, as it was delivered or is now in the stream, with its ID, to the stream
  -- odyssey:dead; or directly after the stream was asked for it and did not answer with exactly one
  -- entry.
  pub run-Justified : (pages n : ℕ) (s : Session r) → Sound s (run {r = r} handler opts pages n s).1
  unfolding call
  run-Justified =
      run-Keeps handler opts Sound (λ s. stay s s refl) in_turn recovers_soundly handles_soundly
        claims_soundly (λ s. stay s _ refl) (λ s. stay s _ refl) (λ s. stay s _ refl)
        (λ s. stay s _ refl)
