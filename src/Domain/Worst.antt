-- ===== src/Domain/Worst.antt =====
-- `statusRank` and `worstStatus` of internal/domain/result.go, and what the loops over them compute.
use odyssey_core_agent.Prelude.{
  ◌≤◌, ◌≡◌, ◌≢◌, refl, sym, ◌∙◌, ap, subst, ◌⊎◌, inl, inr, ◌↔◌, List, [], ◌∷◌, arith, All, Any,
}
use odyssey_core_agent.Domain.Status.{Status, passed, errored, status_rank, worst_status}
use odyssey_core_agent.Domain.Result.{worst_among, aggregate}
use mathlib.Core.List.{Permᴰ}

status_rank_injective : (a b : Status) → status_rank a ≡ status_rank b → a ≡ b
unfolding status_rank
status_rank_injective a b h = ground arith

worst_status-le_left : (a b : Status) → status_rank a ≤ status_rank (worst_status a b)
unfolding worst_status
worst_status-le_left a b = ground arith

worst_status-le_right : (a b : Status) → status_rank b ≤ status_rank (worst_status a b)
unfolding worst_status
worst_status-le_right a b = ground arith

worst_status-cases : (a b : Status) → (worst_status a b ≡ a) ⊎ (worst_status a b ≡ b)
unfolding worst_status
worst_status-cases a b = ground arith

worst_status_swap :
    (a b c : Status) → worst_status (worst_status a b) c ≡ worst_status (worst_status a c) b
unfolding worst_status
worst_status_swap a b c = ground arith

worst_status-passed : (a : Status) → worst_status passed a ≡ a
unfolding worst_status
worst_status-passed a = ground arith

worst_status-eq-passed : (a b : Status) → worst_status a b ≡ passed → (a ≡ passed) × (b ≡ passed)
unfolding worst_status
worst_status-eq-passed a b h = ground arith

worst_status-eq-errored :
    (a b : Status) → worst_status a b ≡ errored → (a ≡ errored) ⊎ (b ≡ errored)
unfolding worst_status
worst_status-eq-errored a b h = ground arith

worst_status-errored_left : (b : Status) → worst_status errored b ≡ errored
unfolding worst_status
worst_status-errored_left b = ground arith

worst_status-errored_right : (a : Status) → worst_status a errored ≡ errored
unfolding worst_status
worst_status-errored_right a = ground arith

module _ {ℓ} {A : Type ℓ} (status : A → Status) where
  worst_among-ge_start :
      (w : Status) (xs : List A) → status_rank w ≤ status_rank (worst_among status w xs)
  unfolding worst_among
  worst_among-ge_start w [] = omega arith
  worst_among-ge_start w (x ∷ xs) = omega (
    arith,
    worst_status-le_left w (status x),
    worst_among-ge_start (worst_status w (status x)) xs,
  )

  -- No member is worse than the aggregate.
  worst_among-ge_member :
      (w : Status) (xs : List A)
      → All (λ x. status_rank (status x) ≤ status_rank (worst_among status w xs)) xs
  unfolding worst_among
  worst_among-ge_member w [] = tt
  worst_among-ge_member w (x ∷ xs) = (
    omega (
      arith,
      worst_status-le_right w (status x),
      worst_among-ge_start (worst_status w (status x)) xs,
    ),
    worst_among-ge_member (worst_status w (status x)) xs,
  )

  -- The aggregate is the start or the status of a member.
  worst_among-cases :
      (w : Status) (xs : List A)
      → (worst_among status w xs ≡ w) ⊎ Any (λ x. status x ≡ worst_among status w xs) xs
  unfolding worst_among
  worst_among-cases w [] = inl refl
  worst_among-cases w (x ∷ xs) = elim (worst_among-cases (worst_status w (status x)) xs) [
    | inr member ↦ inr (inr member)
    | inl e ↦ elim (worst_status-cases w (status x)) [
      | inl start ↦ inl (e ∙ start)
      | inr here ↦ inr (inl (sym (e ∙ here)))
    ]
  ]

  worst_among-perm :
      {xs ys : List A} (w : Status)
      → Permᴰ xs ys
      → worst_among status w xs ≡ worst_among status w ys
  unfolding worst_among
  worst_among-perm w Permᴰ.nil = refl
  worst_among-perm w (Permᴰ.cons {l₁ = xs} e p) = rw e (worst_among-perm _ p)
  worst_among-perm w (Permᴰ.swap {a' = a} {b' = b} {l = xs} e f) =
      rw (e, f, worst_status_swap w (status b) (status a))
  worst_among-perm w (Permᴰ.trans p q) = worst_among-perm w p ∙ worst_among-perm w q

  worst_among-eq-passed :
      (w : Status) (xs : List A)
      → worst_among status w xs ≡ passed
      → (w ≡ passed) × All (λ x. status x ≡ passed) xs
  unfolding worst_among
  worst_among-eq-passed w [] h = (h, tt)
  worst_among-eq-passed w (x ∷ xs) h =
      let (start, rest) = worst_among-eq-passed (worst_status w (status x)) xs h in
      let (left, right) = worst_status-eq-passed w (status x) start in (left, (right, rest))

  worst_among-passed :
      (xs : List A) → All (λ x. status x ≡ passed) xs → worst_among status passed xs ≡ passed
  unfolding worst_among
  worst_among-passed [] h = refl
  worst_among-passed (x ∷ xs) h = rw (h.0, worst_status-passed) (worst_among-passed xs h.1)

  worst_among-eq-errored :
      (w : Status) (xs : List A)
      → worst_among status w xs ≡ errored
      → (w ≡ errored) ⊎ Any (λ x. status x ≡ errored) xs
  unfolding worst_among
  worst_among-eq-errored w [] h = inl h
  worst_among-eq-errored w (x ∷ xs) h =
      elim (worst_among-eq-errored (worst_status w (status x)) xs h) [
        | inr rest ↦ inr (inr rest)
        | inl e ↦ elim (worst_status-eq-errored w (status x) e) [
          | inl start ↦ inl start
          | inr here ↦ inr (inl here)
        ]
      ]

  worst_among-start_errored : (xs : List A) → worst_among status errored xs ≡ errored
  unfolding worst_among
  worst_among-start_errored [] = refl
  worst_among-start_errored (x ∷ xs) = rw worst_status-errored_left (worst_among-start_errored xs)

  worst_among-errored :
      (w : Status) (xs : List A)
      → Any (λ x. status x ≡ errored) xs
      → worst_among status w xs ≡ errored
  unfolding worst_among
  worst_among-errored w [] h = absurd h
  worst_among-errored w (x ∷ xs) (inl e) =
      rw (e, worst_status-errored_right) (worst_among-start_errored xs)
  worst_among-errored w (x ∷ xs) (inr h) = worst_among-errored (worst_status w (status x)) xs h

  -- The worst status of a list does not depend on the order of its members.
  pub aggregate-perm : {xs ys : List A} → Permᴰ xs ys → aggregate status xs ≡ aggregate status ys
  unfolding aggregate
  aggregate-perm Permᴰ.nil = refl
  aggregate-perm (Permᴰ.cons e p) = worst_among-perm passed (Permᴰ.cons e p)
  aggregate-perm (Permᴰ.swap {l} e f) = worst_among-perm passed (Permᴰ.swap {l = l} e f)
  aggregate-perm (Permᴰ.trans p q) = aggregate-perm p ∙ aggregate-perm q

  aggregate-cons :
      (x : A) (xs : List A) → aggregate status (x ∷ xs) ≡ worst_among status (status x) xs
  unfolding aggregate
  aggregate-cons x xs = ap (λ w. worst_among status w xs) (worst_status-passed (status x))

  aggregate-attained :
      (x : A) (xs : List A) → Any (λ y. status y ≡ worst_among status (status x) xs) (x ∷ xs)
  aggregate-attained x xs = elim (worst_among-cases (status x) xs) [
    | inl e ↦ inl (sym e)
    | inr rest ↦ inr rest
  ]

  -- Over one member or more, no member is worse than the aggregate, and it is the status of one.
  pub aggregate-greatest :
      (xs : List A)
      → xs ≢ []
      → All (λ x. status_rank (status x) ≤ status_rank (aggregate status xs)) xs
        × Any (λ x. status x ≡ aggregate status xs) xs
  aggregate-greatest [] h = absurd (h refl)
  aggregate-greatest (x ∷ xs) h = (
    unfold aggregate in worst_among-ge_member passed (x ∷ xs),
    subst (λ s. Any (λ y. status y ≡ s) (x ∷ xs)) (sym (aggregate-cons x xs))
        (aggregate-attained x xs),
  )

  pub aggregate-passed_iff :
      (xs : List A) → (aggregate status xs ≡ passed) ↔ ((xs ≢ []) × All (λ x. status x ≡ passed) xs)
  unfolding aggregate
  aggregate-passed_iff [] = (λ h. cc, λ h. absurd (h.0 refl))
  aggregate-passed_iff (x ∷ xs) = (
    λ h. (λ e. cc, (worst_among-eq-passed passed (x ∷ xs) h).1),
    λ h. worst_among-passed (x ∷ xs) h.1,
  )

  pub aggregate-errored_iff :
      (xs : List A) → (aggregate status xs ≡ errored) ↔ Any (λ x. status x ≡ errored) xs
  unfolding aggregate
  aggregate-errored_iff [] = (λ h. cc, λ h. absurd h)
  aggregate-errored_iff (x ∷ xs) = (
    λ h. elim (worst_among-eq-errored passed (x ∷ xs) h) [ inl e ↦ cc | inr m ↦ m ],
    worst_among-errored passed (x ∷ xs),
  )
