-- ===== src/Server/Confinement.antt =====
-- What `projectPathAllowed` of internal/server/path.go accepts.
use mathlib.Core.List.{◌++◌ as ◌⧺◌}
use odyssey_core_agent.Prelude.{
  String, Bool, true, false, Bool-cases, List, [], ◌∷◌, ◌≡◌, ◌≢◌, refl, sym, ◌∙◌, ap, subst, ◌↔◌,
  inl, inr, ◌==◌, eq_iff, All, if◌then◌else◌,
}
use odyssey_core_agent.Prelude.Error.{Result, ok, err}
use odyssey_core_agent.Filepath.{
  is_abs, parts, show_parts, way, base_left, starts_up, unreachable, rel,
}
use odyssey_core_agent.Server.Paths.{stays_inside, inside, confined, project_path_allowed}
use odyssey_core_agent.Server.Location.{location, Beneath}
use odyssey_core_agent.Server.Places.{
  is_abs-show_parts, parts-show_parts, err-ok, shown, abs-location, location-Plain,
}
use odyssey_core_agent.Server.Ways.{
  stays_inside-Plain, stays_inside-up, way_cases, way-beneath, starts_up-base_left,
}
use odyssey_core_agent.Server.Segments.{Plain}

rel-parts :
    (base target : String)
    → is_abs base ≡ true
    → is_abs target ≡ true
    → starts_up (base_left (parts base) (parts target)) ≡ false
    → rel base target ≡ ok (show_parts false (way (parts base) (parts target)))
unfolding rel
rel-parts base target h k up =
    let decided : Bool → Result String = λ b.
      if b
      then err (unreachable base target)
      else ok (show_parts false (way (parts base) (parts target))) in
    let absolute : rel base target ≡ decided (starts_up (base_left (parts base) (parts target))) =
      rw (h, k) refl in
    absolute ∙ ap decided up

rel-shown :
    (base target : List String)
    → All Plain base
    → All Plain target
    → rel (show_parts true base) (show_parts true target) ≡ ok (show_parts false (way base target))
rel-shown base target h k =
    let p = parts-show_parts base h in
    let q = parts-show_parts target k in
    rw (p, q) at
      (rel-parts _ _ (is_abs-show_parts base) (is_abs-show_parts target)
        (rw (p, q) (starts_up-base_left base target h)))

true-false : true ≡ false → ⊥
true-false h = cc

All-rest : (base rest : List String) → All Plain (base ⧺ rest) → All Plain rest
All-rest [] rest h = h
All-rest (b ∷ base) rest h = All-rest base rest h.1

-- The way between two places is inside exactly if the target lies beneath the base.
inside-rel :
    (base target : List String)
    → All Plain base
    → All Plain target
    → (inside (rel (show_parts true base) (show_parts true target)) ≡ true)
      ↔ ((rest : List String) × (target ≡ base ⧺ rest))
unfolding inside
inside-rel base target h k = rw (rel-shown base target h k) (
  λ e. elim (way_cases base target) [
    | inl beneath ↦ beneath
    | inr (ss, up) ↦
        absurd
          (true-false (sym e ∙ ap (λ l. stays_inside (show_parts false l)) up ∙ stays_inside-up ss))
  ],
  λ (rest, e).
      let l = All-rest base rest (subst (All Plain) e k) in
      ap (λ t. stays_inside (show_parts false (way base t))) e
      ∙ ap (λ t. stays_inside (show_parts false t)) (way-beneath base rest)
      ∙ stays_inside-Plain rest l,
)

-- Two places are confined if the one lies beneath the other.
confined-places :
    (path root : Result (List String))
    → ((ss : List String) → path ≡ ok ss → All Plain ss)
    → ((ss : List String) → root ≡ ok ss → All Plain ss)
    → (confined (shown path) (shown root) ≡ true)
      ↔ ((base : List String) × (rest : List String) × (root ≡ ok base) × (path ≡ ok (base ⧺ rest)))
unfolding confined
confined-places (err e) root h k =
    (λ c. absurd (true-false (sym c)), λ (base, rest, p, q). absurd (err-ok e _ q))
confined-places (ok ss) (err e) h k =
    (λ c. absurd (true-false (sym c)), λ (base, rest, p, q). absurd (err-ok e _ p))
confined-places (ok ss) (ok base) h k =
    let (to, from) = inside-rel base ss (k base refl) (h ss refl) in
    (
      λ c. let (rest, e) = to c in (base, rest, refl, ap ok e),
      λ (start, rest, p, q). from (rest, cc),
    )

module _ (getwd : Result String)
    (rooted : (here : String) → getwd ≡ ok here → is_abs here ≡ true) where
  -- If the working directory is an absolute path or unknown, a project root that is set confines the
  -- accepted paths to its own place and those beneath it: a path is accepted exactly if, going through
  -- its segments one directory at a time, from the root or from the working directory, one arrives at
  -- a place whose directories begin with those of the project root. If either path leads nowhere, for
  -- the working directory is unknown, it is refused.
  pub project_path_allowed-Beneath :
      (root path : String)
      → root ≢ ""
      → (project_path_allowed getwd root path ≡ true) ↔ Beneath getwd root path
  unfolding project_path_allowed
  project_path_allowed-Beneath root path set =
      rw (not_empty root set, abs-location getwd rooted path, abs-location getwd rooted root)
        (confined-places (location getwd path) (location getwd root)
          (location-Plain getwd rooted path) (location-Plain getwd rooted root))
    where
      not_empty : (s : String) → s ≢ "" → (s == "") ≡ false
      not_empty s h = elim (Bool-cases (s == "")) [
        | inl e ↦ absurd (h ((eq_iff s "").0 e))
        | inr e ↦ e
      ]
