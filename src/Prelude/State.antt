-- ===== src/Prelude/State.antt =====
-- Code that works on a state: an action returns its value and the new state.
abbrev pub Action : Type 0 → Type 0 → Type 0
Action S A = S → A × S

infixl 5 ◌>>=◌ ◌>>◌
abbrev pub ◌>>=◌ : {S A B : Type 0} → Action S A → (A → Action S B) → Action S B
◌>>=◌ m f s = f (m s).0 (m s).1

abbrev pub ◌>>◌ : {S A B : Type 0} → Action S A → Action S B → Action S B
◌>>◌ m k s = k (m s).1

abbrev pub pure : {S A : Type 0} → A → Action S A
pure a s = (a, s)
