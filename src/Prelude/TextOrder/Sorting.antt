-- ===== src/Prelude/TextOrder/Sorting.antt =====
-- The order on strings is total, and sorting puts any order of the same strings in one order.
use mathlib.Core.List.{Permᴰ}
use text.Mathlib.TextEquality.{Char-path}
use odyssey_core_agent.Prelude.{
  String, true, false, List, [], ◌∷◌, ◌≡◌, refl, ◌∙◌, inl, inr, arith, All, Any, Bool-cases,
}
use odyssey_core_agent.Prelude.TextOrder.{text_le, insert_sorted, sort_strings}

text_le_total : (s t : String) → text_le s t ≡ false → text_le t s ≡ true
unfolding text_le
text_le_total String.[] t h = cc
text_le_total (String.◌∷◌ c s) String.[] h = refl
text_le_total (String.◌∷◌ c s) (String.◌∷◌ d t) h = ground (arith, text_le_total s t)

text_le_antisymm : (s t : String) → text_le s t ≡ true → text_le t s ≡ true → s ≡ t
unfolding text_le
text_le_antisymm String.[] String.[] h k = refl
text_le_antisymm String.[] (String.◌∷◌ d t) h k = cc
text_le_antisymm (String.◌∷◌ c s) String.[] h k = cc
text_le_antisymm (String.◌∷◌ c s) (String.◌∷◌ d t) h k =
    ground (arith, text_le_antisymm s t, Char-path c d)

text_le_trans : (s t u : String) → text_le s t ≡ true → text_le t u ≡ true → text_le s u ≡ true
unfolding text_le
text_le_trans String.[] t u h k = refl
text_le_trans (String.◌∷◌ c s) String.[] u h k = cc
text_le_trans (String.◌∷◌ c s) (String.◌∷◌ d t) String.[] h k = cc
text_le_trans (String.◌∷◌ c s) (String.◌∷◌ d t) (String.◌∷◌ e u) h k =
    ground (arith, text_le_trans s t u)

insert_sorted_swap :
    (a b : String) (l : List String)
    → insert_sorted a (insert_sorted b l) ≡ insert_sorted b (insert_sorted a l)
unfolding insert_sorted
insert_sorted_swap a b [] = ground (arith, text_le_total a b, text_le_antisymm a b)
insert_sorted_swap a b (x ∷ l) = ground (
  arith,
  text_le_total a b,
  text_le_total a x,
  text_le_total b x,
  text_le_antisymm a b,
  text_le_trans a b x,
  text_le_trans b a x,
  insert_sorted_swap a b l,
)

pub sort_strings-perm : {xs ys : List String} → Permᴰ xs ys → sort_strings xs ≡ sort_strings ys
unfolding sort_strings
sort_strings-perm Permᴰ.nil = refl
sort_strings-perm (Permᴰ.cons {l₁ = xs} {l₂ = ys} e p) = cc (e, sort_strings-perm p)
sort_strings-perm (Permᴰ.swap {a} {b} {l} e f) = insert_sorted_swap a b (sort_strings l) ∙ cc (e, f)
sort_strings-perm (Permᴰ.trans p q) = sort_strings-perm p ∙ sort_strings-perm q

module _ (P : String → Type 0) where
  Any-insert_sorted : (s : String) (ts : List String) → Any P (s ∷ ts) → Any P (insert_sorted s ts)
  unfolding insert_sorted
  Any-insert_sorted s [] h = h
  Any-insert_sorted s (t ∷ ts) h = elim (Bool-cases (text_le s t)) [
    | inl e ↦ rw e h
    | inr e ↦ rw e (elim h [
      | inl here ↦ inr (Any-insert_sorted s ts (inl here))
      | inr rest ↦ elim rest [ inl q ↦ inl q | inr q ↦ inr (Any-insert_sorted s ts (inr q)) ]
    ])
  ]

  pub Any-sort_strings : (ss : List String) → Any P ss → Any P (sort_strings ss)
  unfolding sort_strings
  Any-sort_strings [] h = h
  Any-sort_strings (s ∷ ss) (inl h) = Any-insert_sorted s (sort_strings ss) (inl h)
  Any-sort_strings (s ∷ ss) (inr h) =
      Any-insert_sorted s (sort_strings ss) (inr (Any-sort_strings ss h))

module _ {κ} (P : String → Type κ) where
  All-insert_sorted : (s : String) (ts : List String) → P s → All P ts → All P (insert_sorted s ts)
  unfolding insert_sorted
  All-insert_sorted s [] p h = (p, h)
  All-insert_sorted s (t ∷ ts) p h = elim (Bool-cases (text_le s t)) [
    | inl e ↦ rw e (p, h)
    | inr e ↦ rw e (h.0, All-insert_sorted s ts p h.1)
  ]

  pub All-sort_strings : (ss : List String) → All P ss → All P (sort_strings ss)
  unfolding sort_strings
  All-sort_strings [] h = tt
  All-sort_strings (s ∷ ss) h = All-insert_sorted s (sort_strings ss) h.0 (All-sort_strings ss h.1)
