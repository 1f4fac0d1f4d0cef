-- ===== src/Server/Paths.antt =====
-- internal/server/path.go: which project paths the server accepts.
use Prim.Native.Char.{code}
use odyssey_core_agent.Prelude.{
  String, Bool, true, false, ◌&&◌, ◌||◌, not, nat_eq, ◌==◌, if◌then◌else◌,
}
use odyssey_core_agent.Prelude.Error.{Result, ok, err}
use odyssey_core_agent.Filepath.{abs, rel}

-- `strings.HasPrefix(s, prefix)`
unfoldable pub has_prefix : String → String → Bool
has_prefix s String.[] = true
has_prefix String.[] (String.◌∷◌ p prefix) = false
has_prefix (String.◌∷◌ c s) (String.◌∷◌ p prefix) = nat_eq (code c) (code p) && has_prefix s prefix

-- `rel == "." || (!strings.HasPrefix(rel, ".."+string(filepath.Separator)) && rel != "..")`
unfoldable pub stays_inside : String → Bool
unfolding has_prefix
stays_inside rel = rel == "." || (not (has_prefix rel "../") && not (rel == ".."))

-- The end of the check, once the way is known.
unfoldable pub inside : Result String → Bool
unfolding stays_inside
inside (err e) = false
inside (ok rel) = stays_inside rel

-- The check of two absolute paths.
unfoldable pub confined : Result String → Result String → Bool
unfolding inside rel
confined (err e) root = false
confined (ok path) (err e) = false
confined (ok path) (ok root) = inside (rel root path)

-- `projectPathAllowed`, told what `os.Getwd` returns.
unfoldable pub project_path_allowed : Result String → String → String → Bool
unfolding confined abs
project_path_allowed getwd root path =
    if root == "" then true else confined (abs getwd path) (abs getwd root)
