-- ===== src/Results/Keys.antt =====
-- The UNIQUE and REFERENCES clauses of internal/results/migrations, kept by the statements.
use odyssey_core_agent.Prelude.{
  ◌≡◌, sym, ◌∙◌, arith, ℕ, Bool, false, Bool-cases, List, [], ◌∷◌, ◌++◌, some, inl, inr, All, Any,
  All-append, All-mono,
}
use odyssey_core_agent.Results.Tables.{exists_where, insert_unless, update_where, select_id}

module _ {A : Type 0} (same : A → A → Bool) where
  -- No two rows have the same key.
  abbrev pub Unique : List A → Type 0
  Unique [] = Unit
  Unique (row ∷ rows) = All (λ other. same row other ≡ false) rows × Unique rows

  none_where :
      (test : A → Bool) (rows : List A)
      → exists_where test rows ≡ false
      → All (λ row. test row ≡ false) rows
  unfolding exists_where
  none_where test [] h = tt
  none_where test (row ∷ rows) h = (ground (arith, h), none_where test rows (ground (arith, h)))

  Unique-append :
      (new : A) (rows : List A)
      → All (λ row. same row new ≡ false) rows
      → Unique rows
      → Unique (rows ++ new ∷ [])
  Unique-append new [] h u = (tt, tt)
  Unique-append new (row ∷ rows) h u =
      (All-append _ rows (new ∷ []) u.0 (h.0, tt), Unique-append new rows h.1 u.1)

  pub Unique-insert_unless :
      (test : A → Bool) (new : A) (rows : List A)
      → ((row : A) → test row ≡ same row new)
      → Unique rows
      → Unique (insert_unless test new rows)
  unfolding insert_unless
  Unique-insert_unless test new rows k u = elim (Bool-cases (exists_where test rows)) [
    | inl e ↦ rw e u
    | inr e ↦ rw e (
        Unique-append new rows (All-mono (λ row h. sym (k row) ∙ h) rows (none_where test rows e))
          u)
  ]

  module _ (test : A → Bool) (change : A → A) (left : (x y : A) → same (change x) y ≡ same x y)
      (right : (x y : A) → same x (change y) ≡ same x y) where
    apart-update_where :
        (x : A) (rows : List A)
        → All (λ other. same x other ≡ false) rows
        → All (λ other. same x other ≡ false) (update_where test change rows)
    unfolding update_where
    apart-update_where x [] h = tt
    apart-update_where x (row ∷ rows) h =
        (ground (arith, right x row, h.0), apart-update_where x rows h.1)

    pub Unique-update_where : (rows : List A) → Unique rows → Unique (update_where test change rows)
    unfolding update_where
    Unique-update_where [] u = tt
    Unique-update_where (row ∷ rows) u =
        let apart = apart-update_where row rows u.0 in
        let rest = Unique-update_where rows u.1 in
        elim (Bool-cases (test row)) [
          | inl e ↦ rw e (All-mono (λ y h. left row y ∙ h) _ apart, rest)
          | inr e ↦ rw e (apart, rest)
        ]

module _ {A : Type 0} (id : A → ℕ) where
  -- Some row has this id.
  abbrev pub Refers : List A → ℕ → Type 0
  Refers rows n = Any (λ row. id row ≡ n) rows

  pub Refers-select_id :
      (test : A → Bool) (rows : List A) {n : ℕ} → select_id id test rows ≡ some n → Refers rows n
  unfolding select_id
  Refers-select_id test [] h = cc
  Refers-select_id test (row ∷ rows) {n = n} h = elim (Bool-cases (test row)) [
    | inl e ↦ inl (ground (arith, h, e))
    | inr e ↦ inr (Refers-select_id test rows {n = n} (ground (arith, h, e)))
  ]

  pub Refers-insert_unless :
      (test : A → Bool) (new : A) (rows : List A) (n : ℕ)
      → Refers rows n
      → Refers (insert_unless test new rows) n
  unfolding insert_unless
  Refers-insert_unless test new rows n h = elim (Bool-cases (exists_where test rows)) [
    | inl e ↦ rw e h
    | inr e ↦ rw e (in_front rows h)
  ]
    where
      in_front : (xs : List A) → Refers xs n → Refers (xs ++ new ∷ []) n
      in_front [] k = absurd k
      in_front (x ∷ xs) (inl k) = inl k
      in_front (x ∷ xs) (inr k) = inr (in_front xs k)

  pub Refers-update_where :
      (test : A → Bool) (change : A → A) (rows : List A) (n : ℕ)
      → ((row : A) → id (change row) ≡ id row)
      → Refers rows n
      → Refers (update_where test change rows) n
  unfolding update_where
  Refers-update_where test change [] n k h = h
  Refers-update_where test change (row ∷ rows) n k (inl h) = inl (ground (arith, k row, h))
  Refers-update_where test change (row ∷ rows) n k (inr h) =
      inr (Refers-update_where test change rows n k h)

-- All rows refer to a row of another table.
module _ {A : Type 0} (P : A → Type 0) where
  pub All-insert_unless :
      (test : A → Bool) (new : A) (rows : List A)
      → P new
      → All P rows
      → All P (insert_unless test new rows)
  unfolding insert_unless
  All-insert_unless test new rows h k = elim (Bool-cases (exists_where test rows)) [
    | inl e ↦ rw e k
    | inr e ↦ rw e (All-append P rows (new ∷ []) k (h, tt))
  ]

  pub All-update_where :
      (test : A → Bool) (change : A → A) (rows : List A)
      → ((row : A) → P row → P (change row))
      → All P rows
      → All P (update_where test change rows)
  unfolding update_where
  All-update_where test change [] k h = tt
  All-update_where test change (row ∷ rows) k h = elim (Bool-cases (test row)) [
    | inl e ↦ rw e (k row h.0, All-update_where test change rows k h.1)
    | inr e ↦ rw e (h.0, All-update_where test change rows k h.1)
  ]
