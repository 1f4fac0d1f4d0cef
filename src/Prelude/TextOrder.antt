-- ===== src/Prelude/TextOrder.antt =====
-- Go's order on strings and the sorted key lists of `sort.Strings` and `slices.Sorted`. Comparing
-- code points orders valid UTF-8 as comparing bytes does.
pub mod Sorting
use Prim.Native.Char.{code}
use odyssey_core_agent.Prelude.{String, Bool, true, false, List, [], ◌∷◌, ltb, if◌then◌else◌}

-- `s <= t`
unfoldable pub text_le : String → String → Bool
text_le String.[] t = true
text_le (String.◌∷◌ c s) String.[] = false
text_le (String.◌∷◌ c s) (String.◌∷◌ d t) =
    let rest = text_le s t in
    if ltb (code c) (code d) then true else if ltb (code d) (code c) then false else rest

unfoldable pub insert_sorted : String → List String → List String
unfolding text_le
insert_sorted s [] = s ∷ []
insert_sorted s (t ∷ ts) =
    let rest = insert_sorted s ts in if text_le s t then s ∷ t ∷ ts else t ∷ rest

unfoldable pub sort_strings : List String → List String
unfolding insert_sorted
sort_strings [] = []
sort_strings (s ∷ ss) = insert_sorted s (sort_strings ss)
