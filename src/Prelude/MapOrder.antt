-- ===== src/Prelude/MapOrder.antt =====
-- What a map holds does not depend on the order of its entries; `maps.Copy` of one map over another.
use mathlib.Core.List.Permᴰ
use mathlib.Core.Path.{subst₂}
use mathlib.Core.List.{Permᴰ}
use odyssey_core_agent.Prelude.{
  String, [], ◌∷◌, none, some, ◌≡◌, refl, ◌∙◌, sym, ap, inl, inr, arith, ◌==◌, eq_iff, All,
  All-mono, Any, Bool-cases, eq_refl, Map, lookup, insert, copy, keys, HasKey, IsMap, lookup-insert,
}

pub lookup-absent {ℓ} : {V : Type ℓ} (k : String) (m : Map V) → ¬ HasKey k m → lookup k m ≡ none
unfolding lookup
lookup-absent k [] h = refl
lookup-absent k ((j, v) ∷ m) h =
    ground (arith, eq_iff j k, λ (e : j ≡ k). h (inl e), lookup-absent k m (λ x. h (inr x)))

-- After `maps.Copy` a key has its value in the source, or else the one that it had.
pub lookup-copy {ℓ} :
    {V : Type ℓ} (k : String) (dst src : Map V)
    → IsMap src
    → lookup k (copy dst src) ≡ elim (lookup k src) [ some v ↦ some v | none ↦ lookup k dst ]
unfolding lookup copy
lookup-copy k dst [] h = refl
lookup-copy k dst ((j, v) ∷ src) h = ground (
  arith,
  lookup-copy k (insert j v dst) src,
  lookup-insert j k v dst,
  eq_iff j k,
  lookup-absent k src,
)

module _ {V : Type 0} where
  -- What holds of every entry holds of an entry that is found.
  pub All-lookup {κ} :
      (P : String × V → Type κ) (m : Map V) {k : String} {v : V}
      → All P m
      → lookup k m ≡ some v
      → P (k, v)
  unfolding lookup
  All-lookup P [] h e = cc
  All-lookup P ((j, w) ∷ m) {k} {v} h e = elim (Bool-cases (j == k)) [
    | inl same ↦
        let found : w ≡ v = ground arith in subst₂ (λ x y. P (x, y)) ((eq_iff j k).0 same) found h.0
    | inr other ↦ All-lookup P m {k = k} {v = v} h.1 (ground arith)
  ]

  -- What holds of some entry holds of one that is found under its key.
  pub Any-lookup :
      (P : String × V → Type 0) (m : Map V)
      → IsMap m
      → Any P m
      → (k : String) × (v : V) × (lookup k m ≡ some v) × P (k, v)
  unfolding lookup
  Any-lookup P [] u h = absurd h
  Any-lookup P ((j, w) ∷ m) u (inl h) = (j, w, rw (eq_refl j), h)
  Any-lookup P ((j, w) ∷ m) u (inr h) =
      let (k, v, found, p) = Any-lookup P m u.1 h in
      (k, v, ground (arith, eq_iff j k, lookup-absent j m u.0), p)

  pub In-keys : (m : Map V) (k : String) {v : V} → lookup k m ≡ some v → Any (λ j. j ≡ k) (keys m)
  unfolding lookup keys
  In-keys [] k e = cc
  In-keys ((j, w) ∷ m) k {v} e = elim (Bool-cases (j == k)) [
    | inl same ↦ inl ((eq_iff j k).0 same)
    | inr other ↦ inr (In-keys m k {v = v} (ground arith))
  ]

  pub All-keys : (m : Map V) → All (λ k. (v : V) × (lookup k m ≡ some v)) (keys m)
  unfolding lookup keys
  All-keys [] = tt
  All-keys ((j, w) ∷ m) = (
    (w, rw (eq_refl j)),
    All-mono
        (λ k found. elim (Bool-cases (j == k)) [
          | inl same ↦ (w, rw same)
          | inr other ↦ (found.0, rw other found.1)
        ])
        (keys m) (All-keys m),
  )

module _ {ℓ} {V : Type ℓ} where
  HasKey-perm : {a b : Map V} (k : String) → Permᴰ a b → HasKey k a → HasKey k b
  HasKey-perm k Permᴰ.nil h = h
  HasKey-perm k (Permᴰ.cons e p) h =
      rw (← e) (elim h [ inl x ↦ inl x | inr m ↦ inr (HasKey-perm k p m) ])
  HasKey-perm k (Permᴰ.swap e f) h =
      rw (← e, ← f)
        (elim h [ inl x ↦ inr (inl x) | inr m ↦ elim m [ inl y ↦ inl y | inr n ↦ inr (inr n) ] ])
  HasKey-perm k (Permᴰ.trans p q) h = HasKey-perm k q (HasKey-perm k p h)

  IsMap-perm : {a b : Map V} → Permᴰ a b → IsMap a → IsMap b
  IsMap-perm Permᴰ.nil h = h
  IsMap-perm (Permᴰ.cons {a = x} e p) h =
      rw (← e) (λ m. h.0 (HasKey-perm x.0 (Permᴰ.symm p) m), IsMap-perm p h.1)
  IsMap-perm (Permᴰ.swap {a = x} {b = y} {l} e f) h =
      subst₂ (λ u v. IsMap (u ∷ v ∷ l)) f e
        (elim [ inl same ↦ h.0 (inl (sym same)) | inr m ↦ h.1.0 m ], (λ m. h.0 (inr m), h.1.1))
  IsMap-perm (Permᴰ.trans p q) h = IsMap-perm q (IsMap-perm p h)

  pub lookup-perm : {a b : Map V} (k : String) → Permᴰ a b → IsMap a → lookup k a ≡ lookup k b
  unfolding lookup
  lookup-perm k Permᴰ.nil h = refl
  lookup-perm k (Permᴰ.cons e p) h = rw (← e, lookup-perm k p h.1)
  lookup-perm k (Permᴰ.swap {a = x} {b = y} e f) h =
      rw (← e, ← f) (ground (arith, eq_iff x.0 k, eq_iff y.0 k, λ (q : y.0 ≡ x.0). h.0 (inl q)))
  lookup-perm k (Permᴰ.trans p q) h = lookup-perm k p h ∙ lookup-perm k q (IsMap-perm p h)

  pub keys-perm : {a b : Map V} → Permᴰ a b → Permᴰ (keys a) (keys b)
  unfolding keys
  keys-perm Permᴰ.nil = Permᴰ.nil
  keys-perm (Permᴰ.cons e p) = Permᴰ.cons (ap (λ x. x.0) e) (keys-perm p)
  keys-perm (Permᴰ.swap e f) = Permᴰ.swap (ap (λ x. x.0) e) (ap (λ x. x.0) f)
  keys-perm (Permᴰ.trans p q) = Permᴰ.trans (keys-perm p) (keys-perm q)
