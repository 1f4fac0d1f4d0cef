-- ===== src/Filepath.antt =====
-- The part of Go's `path/filepath` that internal/server/path.go and internal/config/loader.go call, as
-- it works on Unix. The working directory is a parameter.
use Prim.Native.Char.{Char, code}
use Prim.Native.String.{◌++◌}
use mathlib.Core.List.{reverse, ◌++◌ as ◌⧺◌}
use odyssey_core_agent.Prelude.{
  String, Bool, true, false, ◌&&◌, ◌||◌, not, List, [], ◌∷◌, nat_eq, ◌==◌, if◌then◌else◌,
}
use odyssey_core_agent.Prelude.Error.{Error, errorf, text, Result, ok, err}

unfoldable pub is_slash : Char → Bool
is_slash c = nat_eq (code c) b'/'

-- `filepath.IsAbs`
unfoldable pub is_abs : String → Bool
unfolding is_slash
is_abs String.[] = false
is_abs (String.◌∷◌ c s) = is_slash c

-- A character in front of the first segment.
unfoldable pub push_first : Char → List String → List String
push_first c [] = String.◌∷◌ c "" ∷ []
push_first c (s ∷ ss) = String.◌∷◌ c s ∷ ss

-- A path between its slashes.
unfoldable pub segments : String → List String
unfolding is_slash push_first
segments String.[] = "" ∷ []
segments (String.◌∷◌ c s) =
    let rest = segments s in if is_slash c then "" ∷ rest else push_first c rest

-- The segments with slashes between them.
unfoldable pub slashed : List String → String
slashed [] = ""
slashed (s ∷ []) = s
slashed (s ∷ t ∷ ss) = s ++ "/" ++ slashed (t ∷ ss)

-- A `..`: it takes the last segment back, unless there is none or that is a `..` too.
unfoldable pub go_up : Bool → List String → List String
go_up rooted [] = if rooted then [] else ".." ∷ []
go_up rooted (s ∷ ss) = if s == ".." then ".." ∷ s ∷ ss else ss

-- What `filepath.Clean` keeps of the segments, the last one first.
unfoldable pub cleaned : Bool → List String → List String → List String
unfolding go_up
cleaned rooted kept [] = kept
cleaned rooted kept (s ∷ ss) =
    let same = cleaned rooted kept ss in
    let up = cleaned rooted (go_up rooted kept) ss in
    let down = cleaned rooted (s ∷ kept) ss in
    if s == "" || s == "." then same else if s == ".." then up else down

-- The segments of a cleaned path.
unfoldable pub parts : String → List String
unfolding is_abs segments cleaned
parts path = reverse (cleaned (is_abs path) [] (segments path))

-- Of a rooted path, and of any other.
unfoldable pub show_parts : Bool → List String → String
unfolding slashed
show_parts true ss = "/" ++ slashed ss
show_parts false [] = "."
show_parts false (s ∷ ss) = slashed (s ∷ ss)

-- `filepath.Clean`
unfoldable pub clean : String → String
unfolding is_abs parts show_parts
clean path = show_parts (is_abs path) (parts path)

-- `filepath.Join` of two elements
unfoldable pub join : String → String → String
unfolding clean
join a b = if a == "" then if b == "" then "" else clean b else clean (a ++ "/" ++ b)

-- `filepath.Abs`, told what `os.Getwd` returns.
unfoldable pub abs : Result String → String → Result String
unfolding is_abs clean join
abs getwd path =
    if is_abs path
    then ok (clean path)
    else elim getwd [ err e ↦ err e | ok here ↦ ok (join here path) ]

-- A `..` for each segment.
unfoldable pub ups : List String → List String
ups [] = []
ups (s ∷ ss) = ".." ∷ ups ss

-- The way from the rest of the base to the rest of the target.
unfoldable pub way : List String → List String → List String
unfolding ups
way [] target = target
way (b ∷ base) [] = ups (b ∷ base)
way (b ∷ base) (t ∷ target) =
    let rest = way base target in if b == t then rest else ".." ∷ ups base ⧺ t ∷ target

-- The rest of the base behind what it shares with the target.
unfoldable pub base_left : List String → List String → List String
base_left [] target = []
base_left (b ∷ base) [] = b ∷ base
base_left (b ∷ base) (t ∷ target) =
    let rest = base_left base target in if b == t then rest else b ∷ base

-- One cannot go up from an unknown directory.
unfoldable pub starts_up : List String → Bool
starts_up [] = false
starts_up (s ∷ ss) = s == ".."

unfoldable pub unreachable : String → String → Error
unreachable base target = errorf "Rel: can't make %s relative to %s" (text target ∷ text base ∷ [])

-- `filepath.Rel`
unfoldable pub rel : String → String → Result String
unfolding is_abs parts way base_left starts_up show_parts unreachable
rel base target =
    if (is_abs base && not (is_abs target)) || (not (is_abs base) && is_abs target)
    then err (unreachable base target)
    else if starts_up (base_left (parts base) (parts target))
    then err (unreachable base target)
    else ok (show_parts false (way (parts base) (parts target)))
