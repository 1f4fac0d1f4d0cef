-- ===== src/Prelude/Assoc.antt =====
-- Go maps as association lists keyed by text. The order of the entries is the order of one
-- iteration of the map, which Go leaves open.
use Prim.Native.String.{String}
use mathlib.Core.Path.{◌≡◌, refl}
use mathlib.Core.Logic.{◌⊎◌}
use mathlib.Core.List.{List, [], ◌∷◌}
use mathlib.Core.Option.{Option, none, some}
use native.Mathlib.Omega.{arith}
use text.Mathlib.Text.{◌==◌}
use text.Mathlib.TextEquality.{eq_iff}
use odyssey_core_agent.Prelude.Tests.{if◌then◌else◌}

abbrev pub Map {ℓ} : Type ℓ → Type ℓ
Map V = List (String × V)

module _ {ℓ} {V : Type ℓ} where
  abbrev pub HasKey : String → Map V → Type 0
  HasKey k [] = ⊥
  HasKey k ((j, v) ∷ m) = (j ≡ k) ⊎ HasKey k m

  -- A Go map holds a key once.
  abbrev pub IsMap : Map V → Type 0
  IsMap [] = Unit
  IsMap ((k, v) ∷ m) = ¬ HasKey k m × IsMap m

  unfoldable pub keys : Map V → List String
  keys [] = []
  keys ((k, v) ∷ m) = k ∷ keys m

  -- `value, ok := m[key]`
  unfoldable pub lookup : String → Map V → Option V
  lookup key [] = none
  lookup key ((first, value) ∷ others) =
      let found = lookup key others in if first == key then some value else found

  -- `m[key] = value`
  unfoldable pub insert : String → V → Map V → Map V
  insert key value [] = (key, value) ∷ []
  insert key value ((first, old) ∷ others) =
      let grown = insert key value others in
      if first == key then (key, value) ∷ others else (first, old) ∷ grown

  -- `maps.Copy(dst, src)`
  unfoldable pub copy : Map V → Map V → Map V
  copy dst [] = dst
  copy dst ((key, value) ∷ src) = copy (insert key value dst) src

  pub lookup-insert :
      (key asked : String) (value : V) (entries : Map V)
      → lookup asked (insert key value entries)
        ≡ (if key == asked then some value else lookup asked entries)
  unfolding lookup insert
  lookup-insert key asked value [] = refl
  lookup-insert key asked value ((first, old) ∷ others) =
      let same_elsewhere = lookup-insert key asked value others in
      ground (arith, eq_iff first key, eq_iff first asked, eq_iff key asked, same_elsewhere)
