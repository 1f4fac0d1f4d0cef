-- ===== src/Results/Tables.antt =====
-- The tables of internal/results/migrations, and the statements that internal/results/store.go
-- executes on them.
use odyssey_core_agent.Prelude.{
  ℕ, suc, String, Bool, false, ◌&&◌, ◌||◌, List, [], ◌∷◌, ◌++◌, Option, none, some, ℤ, ltb, nat_eq,
  ◌==◌, if◌then◌else◌,
}

pub record RunRow : Type 0 where
  pub id : ℕ
  pub run_id : String
  pub pipeline : String
  pub status : String
  pub started_at : String
  pub finished_at : Option String

pub record JobRow : Type 0 where
  pub id : ℕ
  pub run_id : ℕ
  pub name : String
  pub stage : String
  pub status : String
  pub started_at : String
  pub finished_at : Option String

pub record StepRow : Type 0 where
  pub id : ℕ
  pub job_id : ℕ
  pub name : String
  pub status : String
  pub exit_code : Option ℤ
  pub duration_ms : Option ℤ
  pub payload : String

pub record Tables : Type 0 where
  pub runs : List RunRow
  pub jobs : List JobRow
  pub steps : List StepRow

module _ {A : Type 0} where
  -- A new row's `INTEGER PRIMARY KEY`: one more than the largest in the table.
  unfoldable pub next_id : (A → ℕ) → ℕ → List A → ℕ
  next_id id largest [] = suc largest
  next_id id largest (row ∷ rows) =
      next_id id (if ltb largest (id row) then id row else largest) rows

  unfoldable pub exists_where : (A → Bool) → List A → Bool
  exists_where test [] = false
  exists_where test (row ∷ rows) = test row || exists_where test rows

  -- `INSERT ... ON CONFLICT (...) DO NOTHING`: `test` finds the rows in conflict.
  unfoldable pub insert_unless : (A → Bool) → A → List A → List A
  insert_unless test new rows = if exists_where test rows then rows else rows ++ new ∷ []

  -- `UPDATE ... SET ... WHERE ...`
  unfoldable pub update_where : (A → Bool) → (A → A) → List A → List A
  update_where test change [] = []
  update_where test change (row ∷ rows) =
      (if test row then change row else row) ∷ update_where test change rows

  -- `SELECT id FROM ... WHERE ...`
  unfoldable pub select_id : (A → ℕ) → (A → Bool) → List A → Option ℕ
  select_id id test [] = none
  select_id id test (row ∷ rows) =
      let later = select_id id test rows in if test row then some (id row) else later

-- `WHERE run_id = ?` on the runs
unfoldable pub is_run : String → RunRow → Bool
is_run run_id row = row.run_id == run_id

-- `WHERE run_id = ? AND name = ?` on the jobs
unfoldable pub is_job : ℕ → String → JobRow → Bool
is_job run name row = nat_eq row.run_id run && (row.name == name)

-- `WHERE job_id = ? AND name = ?` on the steps
unfoldable pub is_step : ℕ → String → StepRow → Bool
is_step job name row = nat_eq row.job_id job && (row.name == name)
