-- ===== src/Prelude/Lists.antt =====
-- Lists measured by native numbers, and predicates on all their members.
use Prim.Native.Nat.{ℕ, zero, suc, ◌+◌}
use mathlib.Core.Path.{◌≡◌, refl}
use mathlib.Core.Logic.{◌≢◌, ◌⊎◌, ◌↔◌, inl, inr}
use mathlib.Core.Bool.{Bool, true}
use mathlib.Core.List.{List, [], ◌∷◌, ◌++◌, map}
use mathlib.Core.Option.{Option, none, some}
use native.Mathlib.Omega.{arith}
use odyssey_core_agent.Prelude.Tests.{if◌then◌else◌, Bool-cases}

module _ {ℓ} {A : Type ℓ} where
  abbrev pub length : List A → ℕ
  length [] = 0
  length (x ∷ xs) = suc (length xs)

  abbrev pub get_elem? : List A → ℕ → Option A
  get_elem? [] i = none
  get_elem? (x ∷ xs) zero = some x
  get_elem? (x ∷ xs) (suc i) = get_elem? xs i

  -- A write out of bounds changes nothing.
  abbrev pub set : List A → ℕ → A → List A
  set [] i v = []
  set (x ∷ xs) zero v = v ∷ xs
  set (x ∷ xs) (suc i) v = x ∷ set xs i v

  pub length-append : (xs ys : List A) → length (xs ++ ys) ≡ length xs + length ys
  length-append [] ys = omega arith
  length-append (x ∷ xs) ys = omega (arith, length-append xs ys)

  -- The members that pass a Boolean test, in their order.
  abbrev pub select : (A → Bool) → List A → List A
  select p [] = []
  select p (x ∷ xs) = let rest = select p xs in if p x then x ∷ rest else rest

  pub select-append :
      (p : A → Bool) (xs ys : List A) → select p (xs ++ ys) ≡ select p xs ++ select p ys
  select-append p [] ys = refl
  select-append p (x ∷ xs) ys = ground (arith, select-append p xs ys)

module _ {ℓ κ} {A : Type ℓ} (P : A → Type κ) where
  abbrev pub All : List A → Type κ
  All [] = Unit
  All (x ∷ xs) = P x × All xs

  pub All-append : (xs ys : List A) → All xs → All ys → All (xs ++ ys)
  All-append [] ys hx hy = hy
  All-append (x ∷ xs) ys hx hy = (hx.0, All-append xs ys hx.1 hy)

module _ {ℓ} {A : Type ℓ} (P : A → Type 0) where
  -- Some member has the property, and it is known which.
  abbrev pub Any : List A → Type 0
  Any [] = ⊥
  Any (x ∷ xs) = P x ⊎ Any xs

pub All-iff {ℓ κ μ} :
    {A : Type ℓ} {P : A → Type κ} {Q : A → Type μ} (f : (x : A) → P x ↔ Q x) (xs : List A)
    → All P xs ↔ All Q xs
All-iff f [] = (λ h. tt, λ h. tt)
All-iff f (x ∷ xs) =
    let (to, from) = All-iff f xs in (λ h. ((f x).0 h.0, to h.1), λ h. ((f x).1 h.0, from h.1))

pub Any-iff {ℓ} :
    {A : Type ℓ} {P Q : A → Type 0} (f : (x : A) → P x ↔ Q x) (xs : List A) → Any P xs ↔ Any Q xs
Any-iff f [] = (λ h. h, λ h. h)
Any-iff f (x ∷ xs) =
    let (to, from) = Any-iff f xs in
    (
      elim [ inl h ↦ inl ((f x).0 h) | inr h ↦ inr (to h) ],
      elim [ inl h ↦ inl ((f x).1 h) | inr h ↦ inr (from h) ],
    )

pub iff_trans {ℓ κ μ} : {A : Type ℓ} {B : Type κ} {C : Type μ} → A ↔ B → B ↔ C → A ↔ C
iff_trans f g = (λ a. g.0 (f.0 a), λ c. f.1 (g.1 c))

pub All-mono {ℓ κ μ} :
    {A : Type ℓ} {P : A → Type κ} {Q : A → Type μ} (f : (x : A) → P x → Q x) (xs : List A)
    → All P xs
    → All Q xs
All-mono f [] h = tt
All-mono f (x ∷ xs) h = (f x h.0, All-mono f xs h.1)

pub Any-append {ℓ} : {A : Type ℓ} (P : A → Type 0) (xs ys : List A) → Any P ys → Any P (xs ++ ys)
Any-append P [] ys h = h
Any-append P (x ∷ xs) ys h = inr (Any-append P xs ys h)

pub Any-map {ℓ κ} :
    {A : Type ℓ} {B : Type κ} {P : A → Type 0} (Q : B → Type 0) (g : A → B)
    (f : (x : A) → P x → Q (g x)) (xs : List A)
    → Any P xs
    → Any Q (map g xs)
Any-map Q g f [] h = h
Any-map Q g f (x ∷ xs) (inl h) = inl (f x h)
Any-map Q g f (x ∷ xs) (inr h) = inr (Any-map Q g f xs h)

pub All-map {ℓ κ μ ν} :
    {A : Type ℓ} {B : Type κ} {P : A → Type μ} (Q : B → Type ν) (g : A → B)
    (f : (x : A) → P x → Q (g x)) (xs : List A)
    → All P xs
    → All Q (map g xs)
All-map Q g f [] h = tt
All-map Q g f (x ∷ xs) h = (f x h.0, All-map Q g f xs h.1)

module _ {ℓ} {A : Type ℓ} (p : A → Bool) where
  -- A member that passes the test is among the selected ones.
  pub Any-select :
      (P : A → Type 0) (pass : (x : A) → P x → p x ≡ true) (xs : List A)
      → Any P xs
      → Any P (select p xs)
  Any-select P pass [] h = h
  Any-select P pass (x ∷ xs) (inl h) = rw (pass x h) (inl h)
  Any-select P pass (x ∷ xs) (inr h) = elim (Bool-cases (p x)) [
    | inl e ↦ rw e (inr (Any-select P pass xs h))
    | inr e ↦ rw e (Any-select P pass xs h)
  ]

  pub All-select {κ} : (P : A → Type κ) (xs : List A) → All P xs → All P (select p xs)
  All-select P [] h = tt
  All-select P (x ∷ xs) h = elim (Bool-cases (p x)) [
    | inl e ↦ rw e (h.0, All-select P xs h.1)
    | inr e ↦ rw e (All-select P xs h.1)
  ]

pub Any-mono {ℓ} :
    {A : Type ℓ} {P Q : A → Type 0} (f : (x : A) → P x → Q x) (xs : List A) → Any P xs → Any Q xs
Any-mono f [] h = h
Any-mono f (x ∷ xs) (inl h) = inl (f x h)
Any-mono f (x ∷ xs) (inr h) = inr (Any-mono f xs h)

pub Any-ne-nil {ℓ} : {A : Type ℓ} (P : A → Type 0) (xs : List A) → Any P xs → xs ≢ []
Any-ne-nil P [] h = absurd h
Any-ne-nil P (x ∷ xs) h = λ e. cc

pub Any-elim {ℓ κ} :
    {A : Type ℓ} {P : A → Type 0} {C : Type κ} (f : (x : A) → P x → C) (xs : List A) → Any P xs → C
Any-elim f [] h = absurd h
Any-elim f (x ∷ xs) (inl h) = f x h
Any-elim f (x ∷ xs) (inr h) = Any-elim f xs h

-- A member that has one property, in a list of which all have another.
pub Any-All {ℓ κ μ} :
    {A : Type ℓ} {P : A → Type 0} {Q : A → Type κ} {C : Type μ} (f : (x : A) → P x → Q x → C)
    (xs : List A)
    → Any P xs
    → All Q xs
    → C
Any-All f [] h k = absurd h
Any-All f (x ∷ xs) (inl h) k = f x h k.0
Any-All f (x ∷ xs) (inr h) k = Any-All f xs h k.1
