-- ===== src/Scenarios/Exported.antt =====
-- An env file with two assignments to one variable, for internal/runner/envfile.go.
use odyssey_core_agent.Prelude.{
  String, [], ◌∷◌, none, ◌≡◌, ◌↔◌, refl, inl, inr, Map, lookup, IsMap, Any,
}
use odyssey_core_agent.Runner.EnvFile.{split_lines, parse_env_file, newly_exported_keys}
use odyssey_core_agent.Runner.Exports.{last_value, lookup-parse_env_file}
use odyssey_core_agent.Runner.Novelty.{IsNewlySet, newly_exported_keys_iff}

abbrev file : String
file = "VERSION=1\n\n  TARGET=linux \nnot an assignment\nVERSION=2\n"

abbrev before : Map String
before = ("VERSION", "1") ∷ ("TARGET", "linux") ∷ []

abbrev after : Map String
after = ("VERSION", "2") ∷ ("TARGET", "linux") ∷ []

after-IsMap : IsMap after
after-IsMap = (elim [ inl e ↦ cc | inr h ↦ h ], (λ h. h, tt))

file_parsed : parse_env_file file ≡ after
unfolding parse_env_file
file_parsed = refl

one_exported : newly_exported_keys before after ≡ "VERSION" ∷ []
unfolding newly_exported_keys lookup
one_exported = refl

lookup-parse_env_file_example :
    lookup "VERSION" (parse_env_file file) ≡ last_value "VERSION" none (split_lines file)
lookup-parse_env_file_example = lookup-parse_env_file "VERSION" file

newly_exported_keys_iff_example :
    Any (λ j. j ≡ "VERSION") (newly_exported_keys before after) ↔ IsNewlySet before after "VERSION"
newly_exported_keys_iff_example = newly_exported_keys_iff before after "VERSION" after-IsMap
