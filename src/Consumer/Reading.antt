-- ===== src/Consumer/Reading.antt =====
-- What internal/consumer/consumer.go reads in an entry and in the count of its attempts.
use odyssey_core_agent.Prelude.{
  String, true, false, List, [], ◌∷◌, Option, none, some, ◌≡◌, refl, ap, inl, inr, arith, ℤ, pos,
  negsuc, int_lt,
}
use odyssey_core_agent.Bus.Redis.{Value, Message}
use odyssey_core_agent.Consumer.Options.{Options}
use odyssey_core_agent.Consumer.Entry.{as_text, envelope, text_or_empty, is_exhausted}
use odyssey_core_agent.Consumer.Outcomes.{HasText, KeepsText, Less, Exceeds}

as_text-some : (v : Option Value) {raw : String} → as_text v ≡ some raw → v ≡ some (Value.text raw)
unfolding as_text
as_text-some none h = cc
as_text-some (some (Value.text text)) h = cc
as_text-some (some Value.other) h = cc

pub envelope-some : (msg : Message) {raw : String} → envelope msg ≡ some raw → HasText msg raw
unfolding envelope
envelope-some msg h = as_text-some _ h

pub envelope-none : (msg : Message) → envelope msg ≡ none → (text : String) → HasText msg text → ⊥
unfolding envelope as_text
envelope-none msg h text k = let same = ap as_text k in cc

pub text_or_empty-KeepsText :
    (msg : Message) (raw : Option String) → envelope msg ≡ raw → KeepsText msg (text_or_empty raw)
unfolding text_or_empty
text_or_empty-KeepsText msg none h = inr (envelope-none msg h, refl)
text_or_empty-KeepsText msg (some raw) h = inl (envelope-some msg h)

int_lt-Less : (a b : ℤ) → int_lt a b ≡ true → Less a b
int_lt-Less (pos a) (pos b) h = ground (arith, h)
int_lt-Less (pos a) (negsuc b) h = cc
int_lt-Less (negsuc a) (pos b) h = tt
int_lt-Less (negsuc a) (negsuc b) h = ground (arith, h)

int_lt-not_Less : (a b : ℤ) → int_lt a b ≡ false → Less a b → ⊥
int_lt-not_Less (pos a) (pos b) h k = ground (arith, h, k)
int_lt-not_Less (pos a) (negsuc b) h k = k
int_lt-not_Less (negsuc a) (pos b) h k = cc
int_lt-not_Less (negsuc a) (negsuc b) h k = ground (arith, h, k)

pub is_exhausted-Exceeds :
    (opts : Options) (counts : List ℤ) → is_exhausted opts counts ≡ true → Exceeds opts counts
unfolding is_exhausted
is_exhausted-Exceeds opts [] h = cc
is_exhausted-Exceeds opts (count ∷ []) h = (count, refl, int_lt-Less _ count h)
is_exhausted-Exceeds opts (a ∷ b ∷ counts) h = cc

pub is_exhausted-not_Exceeds :
    (opts : Options) (counts : List ℤ) → is_exhausted opts counts ≡ false → Exceeds opts counts → ⊥
unfolding is_exhausted
is_exhausted-not_Exceeds opts [] h (n, e, k) = cc
is_exhausted-not_Exceeds opts (count ∷ []) h (n, e, k) =
    let same : count ≡ n = cc in int_lt-not_Less opts.max_attempts n (rw same at h) k
is_exhausted-not_Exceeds opts (a ∷ b ∷ counts) h (n, e, k) = cc
