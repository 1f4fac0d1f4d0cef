-- ===== src/Results/Selection.antt =====
-- Rows that the statements of internal/results/store.go find again.
use odyssey_core_agent.Prelude.{
  ℕ, Bool, true, Bool-cases, List, [], ◌∷◌, ◌++◌, some, ◌≡◌, refl, inl, inr,
}
use odyssey_core_agent.Results.Tables.{exists_where, insert_unless, update_where, select_id}

module _ {A : Type 0} (id : A → ℕ) (test : A → Bool) where
  -- An update that keeps the ids and the keys.
  pub select_id-update_where :
      (where_test : A → Bool) (change : A → A)
      → ((row : A) → id (change row) ≡ id row)
      → ((row : A) → test (change row) ≡ test row)
      → (rows : List A)
      → select_id id test (update_where where_test change rows) ≡ select_id id test rows
  unfolding select_id update_where
  select_id-update_where where_test change h k [] = refl
  select_id-update_where where_test change h k (row ∷ rows) =
      let rest = select_id-update_where where_test change h k rows in
      elim (Bool-cases (where_test row)) [
        | inl e ↦ rw (e, h row, k row, rest) refl
        | inr e ↦ rw (e, rest) refl
      ]

  select_id-append :
      (new : A) (rows : List A) {i : ℕ}
      → select_id id test rows ≡ some i
      → select_id id test (rows ++ new ∷ []) ≡ some i
  unfolding select_id
  select_id-append new [] h = cc
  select_id-append new (row ∷ rows) {i} h = elim (Bool-cases (test row)) [
    | inl e ↦ rw e (rw e at h)
    | inr e ↦ rw e (select_id-append new rows {i = i} (rw e at h))
  ]

  pub select_id-insert_unless :
      (conflict : A → Bool) (new : A) (rows : List A) {i : ℕ}
      → select_id id test rows ≡ some i
      → select_id id test (insert_unless conflict new rows) ≡ some i
  unfolding insert_unless
  select_id-insert_unless conflict new rows {i} h = elim (Bool-cases (exists_where conflict rows)) [
    | inl e ↦ rw e h
    | inr e ↦ rw e (select_id-append new rows {i = i} h)
  ]

  select_id-new :
      (new : A) (rows : List A)
      → test new ≡ true
      → (i : ℕ) × (select_id id test (rows ++ new ∷ []) ≡ some i)
  unfolding select_id
  select_id-new new [] h = (id new, rw h refl)
  select_id-new new (row ∷ rows) h = elim (Bool-cases (test row)) [
    | inl e ↦ (id row, rw e refl)
    | inr e ↦ let (i, found) = select_id-new new rows h in (i, rw e found)
  ]

  select_id-exists :
      (rows : List A) → exists_where test rows ≡ true → (i : ℕ) × (select_id id test rows ≡ some i)
  unfolding select_id exists_where
  select_id-exists [] h = cc
  select_id-exists (row ∷ rows) h = elim (Bool-cases (test row)) [
    | inl e ↦ (id row, rw e refl)
    | inr e ↦ let (i, found) = select_id-exists rows (rw e at h) in (i, rw e found)
  ]

  -- Behind an insert, the row is there.
  pub select_id-inserted :
      (new : A) (rows : List A)
      → test new ≡ true
      → (i : ℕ) × (select_id id test (insert_unless test new rows) ≡ some i)
  unfolding insert_unless
  select_id-inserted new rows h = elim (Bool-cases (exists_where test rows)) [
    | inl e ↦ rw e (select_id-exists rows e)
    | inr e ↦ rw e (select_id-new new rows h)
  ]
