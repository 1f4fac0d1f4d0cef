-- ===== src/Server/Segments.antt =====
-- The segments of paths in internal/server/path.go and in `path/filepath`.
use Prim.Native.Char.{Char}
use Prim.Native.String.{◌++◌}
use Prim.Native.String.append
use mathlib.Core.List.{◌++◌ as ◌⧺◌, reverse_aux}
use odyssey_core_agent.Prelude.{
  String, true, false, Bool-cases, List, [], ◌∷◌, ◌≡◌, ◌≢◌, refl, ◌∙◌, ap, inl, inr, ◌==◌, All,
}
use odyssey_core_agent.Filepath.{is_slash, push_first, segments, slashed, cleaned}

abbrev pub Unslashed : String → Type 0
Unslashed String.[] = Unit
Unslashed (String.◌∷◌ c s) = (is_slash c ≡ false) × Unslashed s

-- The name of a directory.
pub record Plain (s : String) : Type 0 where
  pub unslashed : Unslashed s
  pub not_empty : (s == "") ≡ false
  pub not_same : (s == ".") ≡ false
  pub not_up : (s == "..") ≡ false

pub All-Unslashed : (ss : List String) → All Plain ss → All Unslashed ss
All-Unslashed [] h = tt
All-Unslashed (s ∷ ss) h = (h.0.unslashed, All-Unslashed ss h.1)

push_first-Unslashed :
    (c : Char) (ss : List String)
    → is_slash c ≡ false
    → All Unslashed ss
    → All Unslashed (push_first c ss)
unfolding push_first
push_first-Unslashed c [] h k = ((h, tt), tt)
push_first-Unslashed c (s ∷ ss) h k = ((h, k.0), k.1)

pub segments-Unslashed : (path : String) → All Unslashed (segments path)
unfolding segments
segments-Unslashed String.[] = (tt, tt)
segments-Unslashed (String.◌∷◌ c s) = elim (Bool-cases (is_slash c)) [
  | inl e ↦ rw e (tt, segments-Unslashed s)
  | inr e ↦ rw e (push_first-Unslashed c _ e (segments-Unslashed s))
]

pub segments-one : (s : String) → Unslashed s → segments s ≡ s ∷ []
unfolding segments push_first
segments-one String.[] h = refl
segments-one (String.◌∷◌ c s) h = rw (h.0, segments-one s h.1) refl

-- A text behind a slash.
pub slash-append : (t : String) → "/" ++ t ≡ String.◌∷◌ "/" t
slash-append t = append.cons _ "" t ∙ ap (λ u. String.◌∷◌ "/" u) (append.nil t)

pub segments-slash : (t : String) → segments ("/" ++ t) ≡ "" ∷ segments t
unfolding segments is_slash
segments-slash t = ap segments (slash-append t)

pub segments-next : (s t : String) → Unslashed s → segments (s ++ "/" ++ t) ≡ s ∷ segments t
unfolding segments push_first
segments-next String.[] t h = ap segments (append.nil ("/" ++ t)) ∙ segments-slash t
segments-next (String.◌∷◌ c s) t h =
    ap segments (append.cons c s _) ∙ rw (h.0, segments-next s t h.1) refl

-- A character in front of a list that is not empty goes into its first text.
push_first-append :
    (c : Char) (ss ts : List String) → ss ≢ [] → push_first c (ss ⧺ ts) ≡ push_first c ss ⧺ ts
unfolding push_first
push_first-append c [] ts h = absurd (h refl)
push_first-append c (s ∷ ss) ts h = refl

segments-ne-nil : (path : String) → segments path ≢ []
unfolding segments push_first
segments-ne-nil String.[] = λ e. cc
segments-ne-nil (String.◌∷◌ c s) = elim (Bool-cases (is_slash c)) [
  | inl e ↦ rw e (λ k. cc)
  | inr e ↦ rw e (pushed (segments s))
]
  where
    pushed : (ss : List String) → push_first c ss ≢ []
    pushed [] = λ e. cc
    pushed (s ∷ ss) = λ e. cc

-- The segments of a joined path are those of its two parts.
pub segments-join : (a b : String) → segments (a ++ "/" ++ b) ≡ segments a ⧺ segments b
unfolding segments
segments-join String.[] b = ap segments (append.nil ("/" ++ b)) ∙ segments-slash b
segments-join (String.◌∷◌ c a) b =
    ap segments (append.cons c a _) ∙ elim (Bool-cases (is_slash c)) [
      | inl e ↦ rw e (ap (λ l. "" ∷ l) (segments-join a b))
      | inr e ↦ rw e (
          ap (push_first c) (segments-join a b)
          ∙ push_first-append c (segments a) (segments b) (segments-ne-nil a))
    ]

pub segments-slashed :
    (s : String) (ss : List String) → All Unslashed (s ∷ ss) → segments (slashed (s ∷ ss)) ≡ s ∷ ss
unfolding slashed
segments-slashed s [] h = segments-one s h.0
segments-slashed s (t ∷ ss) h = segments-next s _ h.0 ∙ ap (λ l. s ∷ l) (segments-slashed t ss h.1)

pub cleaned-Plain :
    (kept ss : List String) → All Plain ss → cleaned true kept ss ≡ reverse_aux ss kept
unfolding cleaned
cleaned-Plain kept [] h = refl
cleaned-Plain kept (s ∷ ss) h =
    rw (h.0.not_empty, h.0.not_same, h.0.not_up) (cleaned-Plain (s ∷ kept) ss h.1)
