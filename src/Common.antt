-- ===== src/Common.antt =====
-- `ReadToml` of internal/common/utils.go, told what the TOML library makes of the file.
use Prim.Native.String.{◌++◌}
use odyssey_core_agent.Prelude.{String, List, [], ◌∷◌}
use odyssey_core_agent.Prelude.Error.{Error, Arg, errorf, Result, ok, err}

-- `strings.Join(keys, ", ")`
unfoldable pub comma_separated : List String → String
comma_separated [] = ""
comma_separated (k ∷ []) = k
comma_separated (k ∷ l ∷ ks) = k ++ ", " ++ comma_separated (l ∷ ks)

unfoldable pub unknown_keys : String → List String → Error
unfolding comma_separated
unknown_keys path keys =
    errorf "%s: unknown configuration keys: %s"
      (Arg.text path ∷ Arg.text (comma_separated keys) ∷ [])

-- `ReadToml`, once the file is decoded.
unfoldable pub read_toml : {A : Type 0} → String → Result (A × List String) → Result A
unfolding unknown_keys
read_toml path (err e) = err e
read_toml path (ok (model, [])) = ok model
read_toml path (ok (model, k ∷ keys)) = err (unknown_keys path (k ∷ keys))
