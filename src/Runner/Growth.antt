-- ===== src/Runner/Growth.antt =====
-- Which calls on containers the parts of internal/runner/docker.go add to those made before.
use odyssey_core_agent.Prelude.{
  ℕ, String, List, [], ◌∷◌, ◌++◌, append_assoc, append-nil, Option, none, some, ◌≡◌, refl, sym, ◌∙◌,
  ap, arith, All, All-append, Map,
}
use odyssey_core_agent.Prelude.Error.{Error, Result, ok, err}
use odyssey_core_agent.Prelude.State.{Action}
use odyssey_core_agent.Domain.Result.{StepResult}
use odyssey_core_agent.Domain.Pipeline.{Step, Event}
use odyssey_core_agent.Runner.Docker.{Context, run_context, Docker}
use odyssey_core_agent.Runner.Session.{
  Call, executed, StepSink, Session, ask, log_call, log_exports, note_refusal, emit_step, since,
}
use odyssey_core_agent.Runner.Container.{
  after_inspect, after_copy, after_attach, after_exec_create, exec_command,
}
use odyssey_core_agent.Runner.Steps.{
  Round, emit_started, emit_finished, read_exported_env, report_unread, after_success, after_exec,
  exec_step, run_step, continue_with, run_steps,
}
use odyssey_core_agent.Runner.Job.{run_setup, continue_setup}

-- The call asks for a command in the container `id`.
abbrev pub ExecIn : String → Call → Type 0
ExecIn id (executed ctx i opts) = i ≡ id
ExecIn id _ = ⊥

-- From `s` to `t` only commands in the container `id` were asked for.
pub record Execs {d : Docker} (id : String) (s t : Session d) : Type 0 where
  pub new : List Call
  pub calls : t.calls ≡ s.calls ++ new
  pub only : All (ExecIn id) new

module _ {d : Docker} where
  calls-after_exec_create :
      (ctx : Context) (r : Result String) (s : Session d)
      → (after_exec_create ctx r s).1.calls ≡ s.calls
  unfolding after_exec_create after_attach after_copy after_inspect ask
  calls-after_exec_create ctx r s = ground arith

  calls-emit_step :
      (sink : StepSink d) (e : Event) (s : Session d) → (emit_step sink e s).1.calls ≡ s.calls
  unfolding emit_step note_refusal
  calls-emit_step sink e s = ground arith

  calls-log_exports :
      (step : String) (ks : List String) (s : Session d) → (log_exports step ks s).1.calls ≡ s.calls
  unfolding log_exports
  calls-log_exports step ks s = ground arith

module _ {d : Docker} {id : String} where
  pub Execs-same : (s t : Session d) → t.calls ≡ s.calls → Execs id s t
  Execs-same s t e = record { new = []; calls = e ∙ sym (append-nil s.calls); only = tt }

  pub Execs-trans : {s t u : Session d} → Execs id s t → Execs id t u → Execs id s u
  Execs-trans {s} {t} {u} a b = record {
    new = a.new ++ b.new;
    calls = b.calls ∙ ap (λ l. l ++ b.new) a.calls ∙ append_assoc s.calls a.new b.new;
    only = All-append (ExecIn id) a.new b.new a.only b.only;
  }

  Execs-exec_command :
      (ctx : Context) (command : String) (env : List String) (s : Session d)
      → Execs id s (exec_command ctx id command env s).1
  unfolding exec_command ask log_call
  Execs-exec_command ctx command env s = record {
    new = executed ctx id _ ∷ [];
    calls = calls-after_exec_create ctx _ _;
    only = (refl, tt);
  }

module _ {d : Docker} (sink : StepSink d) (id job : String) where
  Execs-emit_finished :
      (r : StepResult) (s : Session d) → Execs id s (emit_finished sink id job r s).1
  unfolding emit_finished ask
  Execs-emit_finished r s = Execs-same s _ (calls-emit_step sink _ _)

  Execs-report_unread :
      (start : ℕ) (step : Step) (e : Error) (s : Session d)
      → Execs id s (report_unread sink id job start step e s).1
  unfolding report_unread since ask emit_finished
  Execs-report_unread start step e s = Execs-same s _ (calls-emit_step sink _ _)

  Execs-after_success :
      (start : ℕ) (step : Step) (exported : Map String) (x : StepResult) (r : Result (Map String))
      (s : Session d)
      → Execs id s (after_success sink id job start step exported x r s).1
  unfolding after_success
  Execs-after_success start step exported x (err e) s = Execs-report_unread start step e s
  Execs-after_success start step exported x (ok m) s = Execs-same s _ (calls-log_exports _ _ s)

  Execs-after_exec :
      (start : ℕ) (step : Step) (exported : Map String) (x : StepResult) (e : Option Error)
      (s : Session d)
      → Execs id s (after_exec sink id job start step exported x e s).1
  unfolding after_exec read_exported_env ask
  Execs-after_exec start step exported x (some e) s =
      Execs-trans (Execs-same s _ refl) (Execs-emit_finished _ _)
  Execs-after_exec start step exported x none s = Execs-trans (Execs-emit_finished x s) (
      Execs-trans (Execs-exec_command run_context _ [] _)
        (Execs-after_success start step exported x _ _))

  Execs-exec_step :
      (start : ℕ) (step : Step) (r : Result (Map String)) (s : Session d)
      → Execs id s (exec_step sink id job start step r s).1
  unfolding exec_step since ask
  Execs-exec_step start step (err e) s = Execs-report_unread start step e s
  Execs-exec_step start step (ok exported) s =
      Execs-trans (Execs-exec_command _ step.run _ s)
        (Execs-trans (Execs-same _ _ refl) (Execs-after_exec start step exported _ _ _))

  Execs-run_step : (step : Step) (s : Session d) → Execs id s (run_step sink id job step s).1
  unfolding run_step emit_started ask read_exported_env
  Execs-run_step step s =
      Execs-trans (Execs-same s _ (calls-emit_step sink _ _))
        (Execs-trans (Execs-exec_command run_context _ [] _) (Execs-exec_step _ step _ _))

  Execs-continue_with :
      (rest : List StepResult → Action (Session d) Round) (results : List StepResult) (r : Round)
      (s : Session d)
      → ((rs : List StepResult) (t : Session d) → Execs id t (rest rs t).1)
      → Execs id s (continue_with rest results r s).1
  unfolding continue_with
  Execs-continue_with rest results (rs, some e) s h = Execs-same s s refl
  Execs-continue_with rest results (rs, none) s h = h _ s

  pub Execs-run_steps :
      (steps : List Step) (results : List StepResult) (s : Session d)
      → Execs id s (run_steps sink id job steps results s).1
  unfolding run_steps
  Execs-run_steps [] results s = Execs-same s s refl
  Execs-run_steps (step ∷ steps) results s = Execs-trans (Execs-run_step step s) (
      Execs-continue_with (run_steps sink id job steps) results (run_step sink id job step s).0 _
        (Execs-run_steps steps))

module _ {d : Docker} (id : String) where
  Execs-continue_setup :
      (rest : Action (Session d) (Option Error)) (e : Option Error) (s : Session d)
      → Execs id s (rest s).1
      → Execs id s (continue_setup rest e s).1
  unfolding continue_setup
  Execs-continue_setup rest none s h = h
  Execs-continue_setup rest (some e) s h = Execs-same s s refl

  pub Execs-run_setup :
      (commands : List String) (s : Session d) → Execs id s (run_setup id commands s).1
  unfolding run_setup
  Execs-run_setup [] s = Execs-exec_command run_context _ [] s
  Execs-run_setup (command ∷ commands) s =
      Execs-trans (Execs-exec_command run_context command [] s)
        (Execs-continue_setup _ _ _ (Execs-run_setup commands _))
