-- ===== src/Server/Places.antt =====
-- Absolute paths, as internal/server/path.go makes them, show the places that paths lead to.
use Prim.Native.String.{◌++◌}
use Prim.Native.String.append
use Prim.Native.String.compare
use text.Mathlib.Text.{is_eq}
use mathlib.Core.List.{◌++◌ as ◌⧺◌, reverse, reverse_aux, reverse-reverse}
use odyssey_core_agent.Prelude.{
  String, Bool, true, false, Bool-cases, ◌||◌, List, [], ◌∷◌, ◌≡◌, refl, sym, ◌∙◌, ap, subst, ◌⊎◌,
  inl, inr, ◌==◌, All,
}
use odyssey_core_agent.Prelude.Error.{Error, Result, ok, err}
use odyssey_core_agent.Filepath.{
  is_slash, is_abs, segments, slashed, go_up, cleaned, parts, show_parts, clean, join, abs,
}
use odyssey_core_agent.Server.Location.{parent, walk, location}
use odyssey_core_agent.Server.Segments.{
  Unslashed, Plain, All-Unslashed, segments-Unslashed, segments-slashed, slash-append,
  segments-slash, segments-join, cleaned-Plain,
}

go_up-parent : (here : List String) → All Plain here → go_up true here ≡ parent here
unfolding go_up parent
go_up-parent [] h = refl
go_up-parent (s ∷ ss) h = rw h.0.not_up refl

parent-Plain : (here : List String) → All Plain here → All Plain (parent here)
unfolding parent
parent-Plain [] h = tt
parent-Plain (s ∷ ss) h = h.1

-- How a segment is taken.
segment_cases :
    (s : String)
    → ((s == "" || s == ".") ≡ true)
      ⊎ (((s == "" || s == ".") ≡ false) × ((s == "..") ≡ true))
      ⊎ (((s == "" || s == ".") ≡ false) × ((s == "..") ≡ false))
segment_cases s = elim (Bool-cases (s == "" || s == ".")) [
  | inl e ↦ inl e
  | inr e ↦ elim (Bool-cases (s == "..")) [ inl u ↦ inr (inl (e, u)) | inr d ↦ inr (inr (e, d)) ]
]

or-false : (a b : Bool) → (a || b) ≡ false → (a ≡ false) × (b ≡ false)
or-false true b h = cc
or-false false b h = (refl, h)

plain : (s : String) → Unslashed s → (s == "" || s == ".") ≡ false → (s == "..") ≡ false → Plain s
plain s u e d =
    let (not_empty, not_same) = or-false _ _ e in
    record { unslashed = u; not_empty = not_empty; not_same = not_same; not_up = d }

-- Cleaning a rooted path goes the same way as walking, and only names are left.
cleaned-walk :
    (here ss : List String)
    → All Plain here
    → All Unslashed ss
    → (cleaned true here ss ≡ walk here ss) × All Plain (walk here ss)
unfolding cleaned walk
cleaned-walk here [] h k = (refl, h)
cleaned-walk here (s ∷ ss) h k = elim (segment_cases s) [
  | inl e ↦ rw e (cleaned-walk here ss h k.1)
  | inr (inl (e, u)) ↦
      rw (e, u, go_up-parent here h) (cleaned-walk (parent here) ss (parent-Plain here h) k.1)
  | inr (inr (e, d)) ↦ rw (e, d) (cleaned-walk (s ∷ here) ss (plain s k.0 e d, h) k.1)
]

walk-append : (here ss ts : List String) → walk here (ss ⧺ ts) ≡ walk (walk here ss) ts
unfolding walk
walk-append here [] ts = refl
walk-append here (s ∷ ss) ts = elim (segment_cases s) [
  | inl e ↦ rw e (walk-append here ss ts)
  | inr (inl (e, u)) ↦ rw (e, u) (walk-append (parent here) ss ts)
  | inr (inr (e, d)) ↦ rw (e, d) (walk-append (s ∷ here) ss ts)
]

All-reverse_aux :
    (ss ts : List String) → All Plain ss → All Plain ts → All Plain (reverse_aux ss ts)
All-reverse_aux [] ts h k = k
All-reverse_aux (s ∷ ss) ts h k = All-reverse_aux ss (s ∷ ts) h.1 (h.0, k)

cleaned-slashed :
    (ss : List String) → All Plain ss → cleaned true [] (segments (slashed ss)) ≡ reverse ss
unfolding segments slashed cleaned
cleaned-slashed [] h = refl
cleaned-slashed (s ∷ ss) h =
    ap (cleaned true []) (segments-slashed s ss (All-Unslashed (s ∷ ss) h))
    ∙ cleaned-Plain [] (s ∷ ss) h

-- A rooted path that shows names has them for its parts.
pub is_abs-show_parts : (ss : List String) → is_abs (show_parts true ss) ≡ true
unfolding is_abs is_slash show_parts
is_abs-show_parts ss = ap is_abs (slash-append (slashed ss))

pub parts-show_parts : (ss : List String) → All Plain ss → parts (show_parts true ss) ≡ ss
unfolding show_parts parts cleaned
parts-show_parts ss h =
    let absolute : is_abs ("/" ++ slashed ss) ≡ true = is_abs-show_parts ss in
    rw (absolute, segments-slash (slashed ss), cleaned-slashed ss h) (reverse-reverse ss)

pub Result-cases :
    {A : Type 0} (r : Result A) → ((e : Error) × (r ≡ err e)) ⊎ ((a : A) × (r ≡ ok a))
Result-cases (err e) = inl (e, refl)
Result-cases (ok a) = inr (a, refl)

pub err-ok : {A : Type 0} (e : Error) (a : A) → err e ≡ ok a → ⊥
err-ok e a h = cc

-- What a path is resolved to, as the text of an absolute path.
abbrev pub shown : Result (List String) → Result String
shown (err e) = err e
shown (ok ss) = ok (show_parts true ss)

clean-rooted :
    (path : String)
    → is_abs path ≡ true
    → clean path ≡ show_parts true (reverse (walk [] (segments path)))
unfolding clean parts
clean-rooted path h = rw (h, (cleaned-walk [] (segments path) tt (segments-Unslashed path)).0) refl

is_abs-append : (a b : String) → is_abs a ≡ true → is_abs (a ++ b) ≡ true
unfolding is_abs
is_abs-append String.[] b h = cc
is_abs-append (String.◌∷◌ c a) b h = ap is_abs (append.cons c a b) ∙ h

is_abs-not_empty : (a : String) → is_abs a ≡ true → (a == "") ≡ false
unfolding is_abs
is_abs-not_empty String.[] h = cc
is_abs-not_empty (String.◌∷◌ c a) h = ap is_eq (compare.cons-nil c a)

join-rooted :
    (here path : String)
    → is_abs here ≡ true
    → join here path ≡ show_parts true (reverse (walk (walk [] (segments here)) (segments path)))
unfolding join
join-rooted here path h = rw (is_abs-not_empty here h) (
    clean-rooted (here ++ "/" ++ path) (is_abs-append here _ h)
    ∙ ap (λ ss. show_parts true (reverse (walk [] ss))) (segments-join here path)
    ∙ ap (λ ss. show_parts true (reverse ss)) (walk-append [] (segments here) (segments path)))

module _ (getwd : Result String)
    (rooted : (here : String) → getwd ≡ ok here → is_abs here ≡ true) where
  pub abs-location : (path : String) → abs getwd path ≡ shown (location getwd path)
  unfolding abs location
  abs-location path = elim (Bool-cases (is_abs path)) [
    | inl e ↦ rw e (
        ap (λ ss. ok (show_parts true (reverse ss)))
          (cleaned-walk [] (segments path) tt (segments-Unslashed path)).0)
    | inr e ↦ elim (Result-cases getwd) [
      | inl (why, h) ↦ rw (e, h) refl
      | inr (here, h) ↦ rw (e, h) (ap ok (join-rooted here path (rooted here h)))
    ]
  ]

  -- The place is given by names.
  reverse-Plain :
      (here ss : List String) → All Plain here → ok ss ≡ ok (reverse here) → All Plain ss
  reverse-Plain here ss h e =
      let same : reverse here ≡ ss = cc in subst (All Plain) same (All-reverse_aux here [] h tt)

  pub location-Plain :
      (path : String) (ss : List String) → location getwd path ≡ ok ss → All Plain ss
  unfolding location
  location-Plain path ss h =
      let walked : (here : List String) → All Plain here → All Plain (walk here (segments path)) =
        λ here k. (cleaned-walk here (segments path) k (segments-Unslashed path)).1 in
      elim (Bool-cases (is_abs path)) [
        | inl e ↦ reverse-Plain _ ss (walked [] tt) (sym h ∙ rw e refl)
        | inr e ↦ elim (Result-cases getwd) [
          | inl (why, g) ↦ absurd (err-ok why ss (rw (e, g) at h))
          | inr (here, g) ↦
              reverse-Plain _ ss
                (walked _ (cleaned-walk [] (segments here) tt (segments-Unslashed here)).1)
                (sym h ∙ rw (e, g) refl)
        ]
      ]
