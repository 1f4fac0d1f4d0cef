-- ===== src/Results/Statements.antt =====
-- Statements of internal/results/store.go that are executed twice.
use odyssey_core_agent.Prelude.{
  ◌≡◌, refl, ap, arith, ℕ, String, Bool, true, List, [], ◌∷◌, ◌++◌, Option, none, some,
}
use odyssey_core_agent.Prelude.Error.{Error, Result, ok, err}
use odyssey_core_agent.Results.Tables.{Tables, exists_where, insert_unless, update_where}
use odyssey_core_agent.Results.Rows.{Faults, execute, found_row, run_row, job_row_in, job_row}

-- No query and no statement fails.
abbrev pub no_faults : Faults
no_faults = record { of_run_query = none; of_job_query = none; of_statement = none }

module _ {A : Type 0} (test : A → Bool) where
  exists_where-append :
      (new : A) (rows : List A) → test new ≡ true → exists_where test (rows ++ new ∷ []) ≡ true
  unfolding exists_where
  exists_where-append new [] h = ground arith
  exists_where-append new (row ∷ rows) h = ground (arith, exists_where-append new rows h)

  -- A second row for the same key is not inserted.
  pub insert_unless-again :
      (new again : A) (rows : List A)
      → test new ≡ true
      → insert_unless test again (insert_unless test new rows) ≡ insert_unless test new rows
  unfolding insert_unless
  insert_unless-again new again rows h = ground (arith, exists_where-append new rows h)

  pub update_where-again :
      (change : A → A) (rows : List A)
      → ((row : A) → test (change row) ≡ test row)
      → ((row : A) → change (change row) ≡ change row)
      → update_where test change (update_where test change rows) ≡ update_where test change rows
  unfolding update_where
  update_where-again change [] h k = refl
  update_where-again change (row ∷ rows) h k =
      let rest = update_where-again change rows h k in ground (arith, h row, k row, rest)

-- A row that was found is found again when no query fails.
found_row-again :
    (fault : Option Error) (missing : Error) (row : Option ℕ) {id : ℕ}
    → found_row fault missing row ≡ ok id
    → found_row none missing row ≡ ok id
unfolding found_row
found_row-again none missing row h = h
found_row-again (some e) missing row h = cc

pub run_row-again :
    (faults : Faults) (run_id : String) (t : Tables) {id : ℕ}
    → run_row faults run_id t ≡ ok id
    → run_row no_faults run_id t ≡ ok id
unfolding run_row
run_row-again faults run_id t h = found_row-again faults.of_run_query _ _ h

pub job_row-again :
    (faults : Faults) (run_id job : String) (t : Tables) {id : ℕ}
    → job_row faults run_id job t ≡ ok id
    → job_row no_faults run_id job t ≡ ok id
unfolding job_row job_row_in
job_row-again faults run_id job t {id} h = through (run_row faults run_id t) refl h
  where
    through :
        (r : Result ℕ)
        → run_row faults run_id t ≡ r
        → job_row_in faults run_id job t r ≡ ok id
        → job_row_in no_faults run_id job t (run_row no_faults run_id t) ≡ ok id
    through (err e) k q = cc
    through (ok run) k q =
        rw (run_row-again faults run_id t k) (found_row-again faults.of_job_query _ _ q)

-- A statement that changes nothing the second time.
pub execute-again :
    (fault : Option Error) (wrap wrap' : Error → Error) (next : Tables → Tables) (t : Tables)
    → (execute fault wrap (next t) t).0 ≡ none
    → next (next t) ≡ next t
    → let after = (execute fault wrap (next t) t).1 in
      execute none wrap' (next after) after ≡ (none, after)
unfolding execute
execute-again none wrap wrap' next t h same = ap (λ s. (none, s)) same
execute-again (some e) wrap wrap' next t h same = cc
