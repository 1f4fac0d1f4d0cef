-- ===== src/Results/StepRows.antt =====
-- What `Store.Record` of internal/results/store.go keeps of a step that internal/runner/docker.go
-- reports.
use odyssey_core_agent.Prelude.{
  ℕ, zero, suc, ◌^◌, ◌≤◌, ◌<◌, String, Bool-cases, Option, none, some, ℤ, ◌≡◌, refl, sym, ◌∙◌, ap,
  inl, inr, ltb, int_eq, lookup, arith, if◌then◌else◌,
}
use odyssey_core_agent.Prelude.Error.{Result, ok, err}
use odyssey_core_agent.Prelude.Decimal.{format_int}
use odyssey_core_agent.Domain.Duration.{Duration, neg, milliseconds}
use odyssey_core_agent.Domain.Status.{to_string, exit_none}
use odyssey_core_agent.Domain.Result.{StepResult, step_status}
use odyssey_core_agent.Domain.Pipeline.{Event}
use odyssey_core_agent.Orchestrator.Bus.{stamp}
use odyssey_core_agent.Runner.Steps.{finished_payload, step_finished_event}
use odyssey_core_agent.Results.Tables.{StepRow, Tables, update_where, is_step}
use odyssey_core_agent.Results.Numbers.{parse_int}
use odyssey_core_agent.Results.Rows.{Faults, payload_at, parsed_at, execute, job_row}
use odyssey_core_agent.Results.Store.{
  finished_step, update_step, record_step_finished, record_event,
}
use odyssey_core_agent.Results.Decimals.{Fits64, parse_int-format_int}

Fits64-neg : (n : ℕ) → n ≤ 2 ^ 63 → Fits64 (neg n)
Fits64-neg zero h = omega arith
Fits64-neg (suc n) h = omega arith

Fits64-milliseconds : (d : Duration) → d < 2 ^ 64 → Fits64 (milliseconds d)
unfolding milliseconds
Fits64-milliseconds d h = elim (Bool-cases (ltb d (2 ^ 63))) [
  | inl e ↦ rw e (ground arith)
  | inr e ↦ rw e (Fits64-neg _ (omega arith))
]

-- The step's exit code; a step whose process never produced one has none.
abbrev pub code_kept : StepResult → Option ℤ
code_kept r = if int_eq r.exit_code exit_none then none else some r.exit_code

module _ (r : StepResult) where
  status-finished_payload : lookup "status" (finished_payload r) ≡ some (to_string (step_status r))
  unfolding lookup finished_payload
  status-finished_payload = elim (Bool-cases (int_eq r.exit_code exit_none)) [
    | inl e ↦ rw e refl
    | inr e ↦ rw e refl
  ]

  duration-finished_payload :
      lookup "duration_ms" (finished_payload r) ≡ some (format_int (milliseconds r.duration))
  unfolding lookup finished_payload
  duration-finished_payload = elim (Bool-cases (int_eq r.exit_code exit_none)) [
    | inl e ↦ rw e refl
    | inr e ↦ rw e refl
  ]

abbrev keep_number : Result ℤ → Result (Option ℤ)
keep_number (ok n) = ok (some n)
keep_number (err e) = err e

-- What `parsed_at` does with what it finds.
abbrev read_number : (String → Result ℤ) → Option String → Result (Option ℤ)
read_number parse none = ok none
read_number parse (some raw) = keep_number (parse raw)

parsed_at-absent :
    (event : Event) (key : String) → lookup key event.payload ≡ none → parsed_at event key ≡ ok none
unfolding parsed_at
parsed_at-absent event key h = ap (read_number parse_int) h

parsed_at-number :
    (event : Event) (key : String) (n : ℤ)
    → Fits64 n
    → lookup key event.payload ≡ some (format_int n)
    → parsed_at event key ≡ ok (some n)
unfolding parsed_at
parsed_at-number event key n fits h =
    ap (read_number parse_int) h ∙ ap keep_number (parse_int-format_int n fits)

parsed_at-exit_code :
    (event : Event) (r : StepResult)
    → Fits64 r.exit_code
    → event.payload ≡ finished_payload r
    → parsed_at event "exit_code" ≡ ok (code_kept r)
unfolding lookup finished_payload
parsed_at-exit_code event r fits h = elim (Bool-cases (int_eq r.exit_code exit_none)) [
  | inl e ↦
      parsed_at-absent event "exit_code" (ap (lookup "exit_code") h ∙ rw e refl)
      ∙ ap (λ b. ok (if b then none else some r.exit_code)) (sym e)
  | inr e ↦
      parsed_at-number event "exit_code" r.exit_code fits (ap (lookup "exit_code") h ∙ rw e refl)
      ∙ ap (λ b. ok (if b then none else some r.exit_code)) (sym e)
]

-- The row of the step, with the end that `r` reports.
abbrev pub row_of : StepResult → StepRow → StepRow
row_of r row = record row {
  status = to_string (step_status r);
  exit_code = code_kept r;
  duration_ms = some (milliseconds r.duration);
}

abbrev or_empty : Option String → String
or_empty none = ""
or_empty (some v) = v

payload_at-status :
    (event : Event) (r : StepResult)
    → event.payload ≡ finished_payload r
    → payload_at event "status" ≡ to_string (step_status r)
unfolding payload_at
payload_at-status event r h = ap or_empty (ap (lookup "status") h ∙ status-finished_payload r)

update_step-done :
    (faults : Faults) (event : Event) (t : Tables) (id : ℕ) (code duration : Option ℤ)
    → faults.of_statement ≡ none
    → update_step faults event t (ok id) (ok code) (ok duration) ≡ (
      none,
      record t {
        steps = update_where (is_step id event.step) (finished_step event code duration) t.steps;
      },
    )
unfolding update_step execute
update_step-done faults event t id code duration h = rw h refl

module _ (at : ℕ → String) (faults : Faults) (pipeline run_id job : String) (r : StepResult)
    (when : ℕ) (t : Tables) where
  abbrev finished_event : Event
  finished_event = stamp pipeline run_id (step_finished_event job r when)

  -- If the exit code is an int64 and the duration too, the run and the job of the step have their rows,
  -- and the statement does not fail, then recording the event by which the runner reports the end of
  -- the step, as the orchestrator hands it on, succeeds and writes into the step's row just what the
  -- runner reported: its status, its exit code, unless it has none, and its milliseconds.
  pub record_event-step_finished_event :
      {id : ℕ}
      → Fits64 r.exit_code
      → r.duration < 2 ^ 64
      → job_row faults run_id job t ≡ ok id
      → faults.of_statement ≡ none
      → record_event at faults finished_event t
        ≡ (none, record t { steps = update_where (is_step id r.step_name) (row_of r) t.steps })
  unfolding record_event record_step_finished stamp step_finished_event
  record_event-step_finished_event {id} code_fits duration_fits found working =
      let code = code_kept r in
      let duration = some (milliseconds r.duration) in
      let code_read : parsed_at finished_event "exit_code" ≡ ok code =
        parsed_at-exit_code finished_event r code_fits refl in
      let duration_read : parsed_at finished_event "duration_ms" ≡ ok duration =
        parsed_at-number finished_event "duration_ms" (milliseconds r.duration)
          (Fits64-milliseconds r.duration duration_fits) (duration-finished_payload r) in
      let status : payload_at finished_event "status" ≡ to_string (step_status r) =
        payload_at-status finished_event r refl in
      rw (found, code_read, duration_read)
        (update_step-done faults finished_event t id code duration working
          ∙ ap
              (λ text. (
                none,
                record t {
                  steps =
                      update_where (is_step id r.step_name)
                        (λ row. record row {
                          status = text;
                          exit_code = code;
                          duration_ms = duration;
                        })
                        t.steps;
                },
              ))
              status)
