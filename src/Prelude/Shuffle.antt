-- ===== src/Prelude/Shuffle.antt =====
-- Interleavings: several sequences consumed at once, each from its front.

use mathlib.Core.List.{List, [], ◌∷◌, ◌++◌}

module _ {A : Type 0} where
  -- One of the sequences gives its first member.
  pub data Takes : List (List A) → A → List (List A) → Type 0 where
    here : {x : A} {xs : List A} {rest : List (List A)} → Takes ((x ∷ xs) ∷ rest) x (xs ∷ rest)
    there :
        {x : A} {xs : List A} {rest left : List (List A)}
        → Takes rest x left
        → Takes (xs ∷ rest) x (xs ∷ left)

  -- The members given, in turn, on the way from some sequences to what is left of them.
  pub data Shuffle : List (List A) → List A → List (List A) → Type 0 where
    still : {xss : List (List A)} → Shuffle xss [] xss
    turn :
        {x : A} {xs : List A} {xss yss zss : List (List A)}
        → Takes xss x yss
        → Shuffle yss xs zss
        → Shuffle xss (x ∷ xs) zss

  pub Shuffle-trans :
      {xs ys : List A} {xss yss zss : List (List A)}
      → Shuffle xss xs yss
      → Shuffle yss ys zss
      → Shuffle xss (xs ++ ys) zss
  Shuffle-trans still g = g
  Shuffle-trans (turn t h) g = turn t (Shuffle-trans h g)

  -- A sequence that nothing is taken from may stand in front.
  pub Shuffle-there :
      {xs s : List A} {xss yss : List (List A)}
      → Shuffle xss xs yss
      → Shuffle (s ∷ xss) xs (s ∷ yss)
  Shuffle-there still = still
  Shuffle-there (turn t h) = turn (there t) (Shuffle-there h)

  -- The first sequence gives several members at once.
  pub Shuffle-here :
      (xs : List A) {left : List A} {rest : List (List A)}
      → Shuffle ((xs ++ left) ∷ rest) xs (left ∷ rest)
  Shuffle-here [] = still
  Shuffle-here (x ∷ xs) = turn here (Shuffle-here xs)
