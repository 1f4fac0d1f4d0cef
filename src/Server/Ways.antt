-- ===== src/Server/Ways.antt =====
-- The ways between paths on which internal/server/path.go decides.
use Prim.Native.String.{◌++◌}
use Prim.Native.String.append
use mathlib.Core.List.{◌++◌ as ◌⧺◌}
use text.Mathlib.TextEquality.{Char-path}
use odyssey_core_agent.Prelude.{
  String, Bool, true, false, Bool-cases, ◌&&◌, ◌||◌, List, [], ◌∷◌, ◌≡◌, refl, sym, ◌∙◌, ap, ◌⊎◌,
  inl, inr, nat_eq_iff, ◌==◌, eq_iff, eq_refl, All,
}
use odyssey_core_agent.Filepath.{
  is_slash, push_first, segments, slashed, show_parts, ups, way, base_left, starts_up,
}
use odyssey_core_agent.Server.Paths.{has_prefix, stays_inside}
use odyssey_core_agent.Server.Segments.{Plain, All-Unslashed, segments-slashed, slash-append}

or-true : (a : Bool) → (a || true) ≡ true
or-true true = refl
or-true false = refl

and-true : (a b : Bool) → (a && b) ≡ true → (a ≡ true) × (b ≡ true)
and-true true b h = (refl, h)
and-true false b h = cc

has_prefix-rest :
    (s prefix : String) → has_prefix s prefix ≡ true → (rest : String) × (s ≡ prefix ++ rest)
unfolding has_prefix
has_prefix-rest s String.[] h = (s, sym (append.nil s))
has_prefix-rest String.[] (String.◌∷◌ p prefix) h = cc
has_prefix-rest (String.◌∷◌ c s) (String.◌∷◌ p prefix) h =
    let (same, more) = and-true _ _ h in
    let (rest, e) = has_prefix-rest s prefix more in
    let first : c ≡ p = Char-path c p ((nat_eq_iff _ _).0 same) in
    let whole : String.◌∷◌ c s ≡ String.◌∷◌ p (prefix ++ rest) = cc in
    (rest, whole ∙ sym (append.cons p prefix rest))

-- A text behind `../`.
up-append : (t : String) → "../" ++ t ≡ String.◌∷◌ "." (String.◌∷◌ "." (String.◌∷◌ "/" t))
up-append t =
    append.cons _ _ t
    ∙ ap (λ u. String.◌∷◌ "." u)
        (append.cons _ _ t
          ∙ ap (λ u. String.◌∷◌ "." u)
              (append.cons _ _ t ∙ ap (λ u. String.◌∷◌ "/" u) (append.nil t)))

segments-up : (t : String) → segments ("../" ++ t) ≡ ".." ∷ segments t
unfolding segments push_first is_slash
segments-up t = ap segments (up-append t)

not_first : (s : String) (ss ts : List String) → (s == "..") ≡ false → s ∷ ss ≡ ".." ∷ ts → ⊥
not_first s ss ts h k = let same : (s == "..") ≡ true = (eq_iff s "..").1 cc in cc

-- A text whose first segment is no `..` is no way up.
stays_inside-first :
    (s : String) (ss : List String) (path : String)
    → (s == "..") ≡ false
    → segments path ≡ s ∷ ss
    → stays_inside path ≡ true
unfolding stays_inside segments
stays_inside-first s ss path h k =
    let no_prefix : has_prefix path "../" ≡ false = elim (Bool-cases (has_prefix path "../")) [
      | inl e ↦
          let (rest, q) = has_prefix-rest path "../" e in
          absurd (not_first s ss _ h (sym k ∙ ap segments q ∙ segments-up rest))
      | inr e ↦ e
    ] in
    let not_up : (path == "..") ≡ false = elim (Bool-cases (path == "..")) [
      | inl e ↦ absurd (not_first s ss [] h (sym k ∙ ap segments ((eq_iff path "..").0 e)))
      | inr e ↦ e
    ] in
    rw (no_prefix, not_up) (or-true _)

pub stays_inside-Plain :
    (ss : List String) → All Plain ss → stays_inside (show_parts false ss) ≡ true
unfolding show_parts stays_inside has_prefix
stays_inside-Plain [] h = refl
stays_inside-Plain (s ∷ ss) h =
    stays_inside-first s ss _ h.0.not_up (segments-slashed s ss (All-Unslashed (s ∷ ss) h))

stays_inside-text :
    (t : String) → stays_inside (String.◌∷◌ "." (String.◌∷◌ "." (String.◌∷◌ "/" t))) ≡ false
unfolding stays_inside has_prefix segments push_first is_slash
stays_inside-text t =
    let up = String.◌∷◌ "." (String.◌∷◌ "." (String.◌∷◌ "/" t)) in
    let no_dot : (up == ".") ≡ false = elim (Bool-cases (up == ".")) [
      | inl e ↦ absurd (dots (segments t) (ap segments ((eq_iff up ".").0 e)))
      | inr e ↦ e
    ] in
    rw no_dot refl
  where
    dots : (ss : List String) → ".." ∷ ss ≡ "." ∷ [] → ⊥
    dots ss h = let same : (".." == ".") ≡ true = (eq_iff ".." ".").1 cc in cc

pub stays_inside-up : (ss : List String) → stays_inside (show_parts false (".." ∷ ss)) ≡ false
unfolding show_parts slashed stays_inside has_prefix
stays_inside-up [] = refl
stays_inside-up (s ∷ ss) =
    let t = slashed (s ∷ ss) in
    let path : ".." ++ "/" ++ t ≡ String.◌∷◌ "." (String.◌∷◌ "." (String.◌∷◌ "/" t)) =
      append.cons _ _ _
      ∙ ap (λ u. String.◌∷◌ "." u)
          (append.cons _ _ _ ∙ ap (λ u. String.◌∷◌ "." u) (append.nil _ ∙ slash-append t)) in
    ap stays_inside path ∙ stays_inside-text t

-- Either the target lies beneath the base, or the way begins by going up.
pub way_cases :
    (base target : List String)
    → ((rest : List String) × (target ≡ base ⧺ rest))
      ⊎ ((ss : List String) × (way base target ≡ ".." ∷ ss))
unfolding way ups
way_cases [] target = inl (target, refl)
way_cases (b ∷ base) [] = inr (_, refl)
way_cases (b ∷ base) (t ∷ target) = elim (Bool-cases (b == t)) [
  | inl e ↦ elim (way_cases base target) [
    | inl (rest, h) ↦ inl (rest, (let same = (eq_iff b t).0 e in cc))
    | inr (ss, h) ↦ inr (ss, rw e h)
  ]
  | inr e ↦ inr (ups base ⧺ t ∷ target, rw e refl)
]

pub way-beneath : (base rest : List String) → way base (base ⧺ rest) ≡ rest
unfolding way
way-beneath [] rest = refl
way-beneath (b ∷ base) rest = rw (eq_refl b) (way-beneath base rest)

pub starts_up-base_left :
    (base target : List String) → All Plain base → starts_up (base_left base target) ≡ false
unfolding starts_up base_left
starts_up-base_left [] target h = refl
starts_up-base_left (b ∷ base) [] h = h.0.not_up
starts_up-base_left (b ∷ base) (t ∷ target) h = elim (Bool-cases (b == t)) [
  | inl e ↦ rw e (starts_up-base_left base target h.1)
  | inr e ↦ rw e h.0.not_up
]
