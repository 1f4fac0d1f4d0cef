-- ===== src/Server/Location.antt =====
-- Where a path leads, for internal/server/path.go: one goes through its segments from the root or from
-- the working directory, one directory at a time.
use mathlib.Core.List.{reverse}
use odyssey_core_agent.Prelude.{String, ◌||◌, List, [], ◌∷◌, ◌++◌, ◌≡◌, ◌==◌, if◌then◌else◌}
use odyssey_core_agent.Prelude.Error.{Result, ok, err}
use odyssey_core_agent.Filepath.{is_abs, segments}

-- The root is its own parent.
unfoldable pub parent : List String → List String
parent [] = []
parent (d ∷ ds) = ds

-- The directories from the place that is reached up to the root.
unfoldable pub walk : List String → List String → List String
unfolding parent
walk here [] = here
walk here (s ∷ ss) =
    let same = walk here ss in
    let up = walk (parent here) ss in
    let down = walk (s ∷ here) ss in
    if s == "" || s == "." then same else if s == ".." then up else down

-- The directories from the root down to the place that a path leads to.
unfoldable pub location : Result String → String → Result (List String)
unfolding is_abs segments walk
location getwd path = if is_abs path then ok (reverse (walk [] (segments path))) else elim getwd [
  | err e ↦ err e
  | ok here ↦ ok (reverse (walk (walk [] (segments here)) (segments path)))
]

-- Both paths lead somewhere, and the one to the other's place or to one beneath it.
abbrev pub Beneath : Result String → String → String → Type 0
Beneath getwd root path =
    (base : List String) × (rest : List String) × (location getwd root ≡ ok base)
    × (location getwd path ≡ ok (base ++ rest))
