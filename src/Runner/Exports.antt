-- ===== src/Runner/Exports.antt =====
-- The variables that the env file of internal/runner/envfile.go holds.
use odyssey_core_agent.Prelude.{
  String, Bool, true, false, List, [], ◌∷◌, Option, none, some, ◌≡◌, refl, ◌==◌, if◌then◌else◌, Map,
  lookup, insert, lookup-insert,
}
use odyssey_core_agent.Runner.EnvFile.{
  split_lines, trim_space, cut, apply_line, apply_lines, parse_env_file,
}

-- The assignment on a line: the text around its first `=`, but for the spaces at its ends.
abbrev pub assignment : String → Option (String × String)
assignment line = if trim_space line == "" then none else cut (trim_space line)

-- The value that the last assignment to the key gives, else the one from before.
abbrev pub last_value : String → Option String → List String → Option String
last_value k before [] = before
last_value k before (line ∷ lines) = elim (assignment line) [
  | none ↦ last_value k before lines
  | some (key, val) ↦ last_value k (if key == k then some val else before) lines
]

lookup-apply_lines :
    (k : String) (env : Map String) (lines : List String)
    → lookup k (apply_lines env lines) ≡ last_value k (lookup k env) lines
unfolding apply_lines apply_line
lookup-apply_lines k env [] = refl
lookup-apply_lines k env (line ∷ lines) =
    rw (lookup-apply_lines k (apply_line env line) lines)
      (step (trim_space line == "") (cut (trim_space line)))
  where
    step :
        (blank : Bool) (parts : Option (String × String))
        → last_value k
            (lookup k (
              if blank
              then env
              else elim parts [ none ↦ env | some (key, val) ↦ insert key val env ]))
            lines
          ≡ (elim (if blank then none else parts) [
            | none ↦ last_value k (lookup k env) lines
            | some (key, val) ↦ last_value k (if key == k then some val else lookup k env) lines
          ])
    step true parts = refl
    step false none = refl
    step false (some (key, val)) = rw (lookup-insert key k val env) refl

-- The value of a variable is that of the last line that assigns it: a line without `=` and a blank
-- line assign nothing, and spaces around a line do not count.
pub lookup-parse_env_file :
    (k contents : String)
    → lookup k (parse_env_file contents) ≡ last_value k none (split_lines contents)
unfolding parse_env_file lookup
lookup-parse_env_file k contents = lookup-apply_lines k [] (split_lines contents)
