-- ===== src/Runner/EnvFile.antt =====
-- internal/runner/envfile.go: variables that a step exports to later steps.
use Prim.Native.Char.{Char, code}
use odyssey_core_agent.Prelude.{
  ℕ, String, Bool, true, ◌&&◌, ◌||◌, not, List, [], ◌∷◌, Option, none, some, leb, nat_eq, ◌==◌,
  if◌then◌else◌, Map, lookup, insert,
}
use odyssey_core_agent.Prelude.TextOrder.{sort_strings}
use Prim.Native.String.{◌++◌}

abbrev pub env_file_path : String
env_file_path = "/tmp/.odyssey_env"

abbrev pub env_file_var : String
env_file_var = "ODYSSEY_ENV_FILE"

-- `unicode.IsSpace`
unfoldable pub is_space : ℕ → Bool
is_space c =
    (leb 9 c && leb c 13)
    || nat_eq c 0x20
    || nat_eq c 0x85
    || nat_eq c 0xa0
    || nat_eq c 0x1680
    || (leb 0x2000 c && leb c 0x200a)
    || nat_eq c 0x2028
    || nat_eq c 0x2029
    || nat_eq c 0x202f
    || nat_eq c 0x205f
    || nat_eq c 0x3000

-- A character in front of the first text of a list.
unfoldable pub push_head : Char → List String → List String
push_head c [] = String.◌∷◌ c "" ∷ []
push_head c (l ∷ ls) = String.◌∷◌ c l ∷ ls

-- `strings.SplitSeq(s, "\n")`
unfoldable pub split_lines : String → List String
unfolding push_head
split_lines String.[] = "" ∷ []
split_lines (String.◌∷◌ c s) =
    let rest = split_lines s in if nat_eq (code c) b'\n' then "" ∷ rest else push_head c rest

unfoldable pub trim_left : String → String
unfolding is_space
trim_left String.[] = ""
trim_left (String.◌∷◌ c s) =
    let rest = trim_left s in if is_space (code c) then rest else String.◌∷◌ c s

-- A character in front of trimmed text: it goes too, if it is space and nothing follows it.
unfoldable pub keep_unless_space : Char → String → String
unfolding is_space
keep_unless_space c String.[] = if is_space (code c) then "" else String.◌∷◌ c ""
keep_unless_space c (String.◌∷◌ d s) = String.◌∷◌ c (String.◌∷◌ d s)

unfoldable pub trim_right : String → String
unfolding keep_unless_space
trim_right String.[] = ""
trim_right (String.◌∷◌ c s) = keep_unless_space c (trim_right s)

-- `strings.TrimSpace`
unfoldable pub trim_space : String → String
unfolding trim_left trim_right
trim_space s = trim_right (trim_left s)

-- `strings.Cut(line, "=")`: the text before and behind the first `=`.
unfoldable pub cut : String → Option (String × String)
cut String.[] = none
cut (String.◌∷◌ c s) =
    if nat_eq (code c) b'='
    then some ("", s)
    else elim (cut s) [ none ↦ none | some (key, val) ↦ some (String.◌∷◌ c key, val) ]

-- What one line of the file does to the map.
unfoldable pub apply_line : Map String → String → Map String
unfolding trim_space cut insert
apply_line env raw =
    let line = trim_space raw in
    if line == ""
    then env
    else elim (cut line) [ none ↦ env | some (key, val) ↦ insert key val env ]

-- The loop over the lines.
unfoldable pub apply_lines : Map String → List String → Map String
unfolding apply_line
apply_lines env [] = env
apply_lines env (line ∷ lines) = apply_lines (apply_line env line) lines

unfoldable pub parse_env_file : String → Map String
unfolding apply_lines split_lines
parse_env_file contents = apply_lines [] (split_lines contents)

-- The slice has the entries in the order of one iteration of the map; nil is the empty list.
unfoldable pub env_slice : Map String → List String
env_slice [] = []
env_slice ((k, v) ∷ env) = (k ++ "=" ++ v) ∷ env_slice env

-- `old, ok := before[k]; !ok || old != v`
unfoldable pub is_new : Map String → String → String → Bool
unfolding lookup
is_new before k v = elim (lookup k before) [ none ↦ true | some old ↦ not (old == v) ]

unfoldable pub new_keys : Map String → Map String → List String
unfolding is_new
new_keys before [] = []
new_keys before ((k, v) ∷ after) =
    let rest = new_keys before after in if is_new before k v then k ∷ rest else rest

unfoldable pub newly_exported_keys : Map String → Map String → List String
unfolding new_keys sort_strings
newly_exported_keys before after = sort_strings (new_keys before after)
