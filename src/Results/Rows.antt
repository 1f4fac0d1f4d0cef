-- ===== src/Results/Rows.antt =====
-- What internal/results/store.go reads before it writes: rows, numbers and faults.
use odyssey_core_agent.Prelude.{ℕ, String, List, [], ◌∷◌, Option, none, some, ℤ, lookup}
use odyssey_core_agent.Prelude.Error.{Error, Arg, errorf, Result, ok, err}
use odyssey_core_agent.Domain.Pipeline.{Event}
use odyssey_core_agent.Results.Numbers.{parse_int}
use odyssey_core_agent.Results.Tables.{Tables, select_id, is_run, is_job}

-- The faults of the database in one call: that of each query and that of the statement, if any. A
-- statement that fails changes nothing.
pub record Faults : Type 0 where
  pub of_run_query : Option Error
  pub of_job_query : Option Error
  pub of_statement : Option Error

-- `event.Payload[key]`: empty for a missing key.
unfoldable pub payload_at : Event → String → String
unfolding lookup
payload_at event key = elim (lookup key event.payload) [ some v ↦ v | none ↦ "" ]

-- An optional integer of the payload: NULL for a missing key.
unfoldable pub parsed_at : Event → String → Result (Option ℤ)
unfolding lookup parse_int
parsed_at event key = elim (lookup key event.payload) [
  | none ↦ ok none
  | some raw ↦ elim (parse_int raw) [ ok n ↦ ok (some n) | err e ↦ err e ]
]

-- `ExecContext`, with how the caller wraps its error.
unfoldable pub execute : Option Error → (Error → Error) → Tables → Tables → Option Error × Tables
execute none wrap new old = (none, new)
execute (some e) wrap new old = (some (wrap e), old)

unfoldable pub found_row : Option Error → Error → Option ℕ → Result ℕ
found_row (some e) missing row = err e
found_row none missing (some id) = ok id
found_row none missing none = err missing

-- `runRow`
unfoldable pub run_row : Faults → String → Tables → Result ℕ
run_row faults run_id t =
    found_row faults.of_run_query
      (errorf "results: event references unknown run %q" (Arg.text run_id ∷ []))
      (select_id (λ row. row.id) (is_run run_id) t.runs)

-- `jobRow`, once the run's row is known.
unfoldable pub job_row_in : Faults → String → String → Tables → Result ℕ → Result ℕ
job_row_in faults run_id job t (err e) = err e
job_row_in faults run_id job t (ok run) =
    found_row faults.of_job_query
      (errorf "results: event references unknown job %q in run %q"
        (Arg.text job ∷ Arg.text run_id ∷ []))
      (select_id (λ row. row.id) (is_job run job) t.jobs)

-- `jobRow`
unfoldable pub job_row : Faults → String → String → Tables → Result ℕ
job_row faults run_id job t = job_row_in faults run_id job t (run_row faults run_id t)

-- The arguments that name a job or a step in an error.
unfoldable pub job_args : Event → List Arg
job_args event = Arg.text event.run_id ∷ Arg.text event.job ∷ []

unfoldable pub step_args : Event → List Arg
step_args event = Arg.text event.run_id ∷ Arg.text event.job ∷ Arg.text event.step ∷ []
