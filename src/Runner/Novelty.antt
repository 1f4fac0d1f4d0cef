-- ===== src/Runner/Novelty.antt =====
-- Which variables internal/runner/envfile.go reports as newly exported.
use odyssey_core_agent.Prelude.{
  String, true, not, [], ◌∷◌, Option, none, some, ◌≡◌, ◌≢◌, ◌↔◌, refl, sym, subst, arith, ◌==◌,
  eq_iff, Map, lookup, IsMap, inl, inr, All, Any, All-mono, Any-All, Bool-cases,
}
use odyssey_core_agent.Prelude.MapOrder.{Any-lookup}
use odyssey_core_agent.Prelude.TextOrder.{sort_strings}
use odyssey_core_agent.Prelude.TextOrder.Sorting.{Any-sort_strings, All-sort_strings}
use odyssey_core_agent.Runner.EnvFile.{is_new, new_keys, newly_exported_keys}

-- What a variable needs to count as newly exported: it is set, and it was not set to this before.
abbrev pub IsNewlySet : Map String → Map String → String → Type 0
IsNewlySet before after k = (v : String) × (lookup k after ≡ some v) × (lookup k before ≢ some v)

is_new_iff :
    (before : Map String) (k v : String) → (is_new before k v ≡ true) ↔ (lookup k before ≢ some v)
unfolding is_new
is_new_iff before k v = decided (lookup k before)
  where
    decided :
        (o : Option String)
        → ((elim o [ none ↦ true | some old ↦ not (old == v) ]) ≡ true) ↔ (o ≢ some v)
    decided none = (λ h e. cc, λ h. refl)
    decided (some old) = (λ h e. ground (arith, eq_iff old v), λ h. ground (arith, eq_iff old v))

abbrev Entry : Map String → String → String → Type 0
Entry m k v = Any (λ entry. entry ≡ (k, v)) m

new_keys-set :
    (before after : Map String)
    → All (λ k. (v : String) × Entry after k v × (lookup k before ≢ some v)) (new_keys before after)
unfolding new_keys
new_keys-set before [] = tt
new_keys-set before ((j, w) ∷ after) =
    let rest =
      All-mono
        (λ k (h : (v : String) × Entry after k v × (lookup k before ≢ some v)). (h.0, inr h.1, h.2))
        (new_keys before after) (new_keys-set before after) in
    elim (Bool-cases (is_new before j w)) [
      | inl e ↦ rw e ((w, inl refl, (is_new_iff before j w).0 e), rest)
      | inr e ↦ rw e rest
    ]

lookup-Entry : (m : Map String) (k v : String) → IsMap m → Entry m k v → lookup k m ≡ some v
lookup-Entry m k v u h =
    let (j, w, found, same) = Any-lookup (λ entry. entry ≡ (k, v)) m u h in
    subst (λ p. lookup p.0 m ≡ some p.1) same found

In-new_keys :
    (before after : Map String) (k v : String)
    → lookup k after ≡ some v
    → lookup k before ≢ some v
    → Any (λ j. j ≡ k) (new_keys before after)
unfolding new_keys lookup
In-new_keys before [] k v h fresh = cc
In-new_keys before ((j, w) ∷ after) k v h fresh = elim (Bool-cases (j == k)) [
  | inl e ↦
      let same : j ≡ k = (eq_iff j k).0 e in
      let value : w ≡ v = ground (arith, h, e) in
      let new : is_new before j w ≡ true =
        subst (λ i. is_new before i w ≡ true) (sym same)
          (subst (λ x. is_new before k x ≡ true) (sym value) ((is_new_iff before k v).1 fresh)) in
      rw new (inl same)
  | inr e ↦
      let later = In-new_keys before after k v (ground (arith, h, e)) fresh in
      elim (Bool-cases (is_new before j w)) [ inl n ↦ rw n (inr later) | inr n ↦ rw n later ]
]

-- The logged names are exactly those of the variables that are set in the new environment, to a value
-- that they had not in the old one, where the new environment holds a key once.
pub newly_exported_keys_iff :
    (before after : Map String) (k : String)
    → IsMap after
    → Any (λ j. j ≡ k) (newly_exported_keys before after) ↔ IsNewlySet before after k
unfolding newly_exported_keys
newly_exported_keys_iff before after k u = (
  λ h.
      Any-All
        (λ j (same : j ≡ k) (set : (v : String) × Entry after j v × (lookup j before ≢ some v)).
          subst (IsNewlySet before after) same (set.0, lookup-Entry after j set.0 u set.1, set.2))
        (sort_strings (new_keys before after)) h
        (All-sort_strings _ (new_keys before after) (new_keys-set before after)),
  λ set. Any-sort_strings _ (new_keys before after) (In-new_keys before after k set.0 set.1 set.2),
)
