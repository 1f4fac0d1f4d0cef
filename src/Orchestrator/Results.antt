-- ===== src/Orchestrator/Results.antt =====
-- What a stage of internal/orchestrator/orchestrator.go reports, whatever the order of its goroutines.
use odyssey_core_agent.Prelude.{◌-◌, ◌≡◌, refl, ◌∙◌, ap, ℕ, zero, suc, List, [], ◌∷◌, map, All}
use odyssey_core_agent.Domain.Result.{JobResult, StageResult}
use odyssey_core_agent.Domain.Pipeline.{Job, Stage, Event}
use odyssey_core_agent.Orchestrator.Bus.{Bus}
use odyssey_core_agent.Orchestrator.Stage.{
  Answers, Phase, waiting, running, announced, stored, Worker, Context, Surroundings, advance_phase,
  advance, advance_at, follow, moves_left, move, wait, spawn, run_stage,
}

-- The runner's results, in the order of the jobs.
abbrev pub results_from : Answers → ℕ → List Job → List JobResult
results_from answers i [] = []
results_from answers i (job ∷ jobs) = (answers i job).result ∷ results_from answers (suc i) jobs

-- A goroutine that is done has stored what its runner answered.
abbrev Sound : Worker → Type 0
Sound w = w.phase ≡ stored → w.slot ≡ w.answer.result

abbrev due : List Worker → List JobResult
due ws = map (λ w. w.answer.result) ws

advance_phase-Sound :
    (c : Context) (w : Worker) (p : Phase) (b : Bus)
    → w.phase ≡ p
    → Sound w
    → Sound (advance_phase c w p b).0 × ((advance_phase c w p b).0.answer.result ≡ w.answer.result)
unfolding advance_phase
advance_phase-Sound c w waiting b e h = (λ k. cc, refl)
advance_phase-Sound c w (running []) b e h = (λ k. cc, refl)
advance_phase-Sound c w (running (x ∷ xs)) b e h = (λ k. cc, refl)
advance_phase-Sound c w announced b e h = (λ k. refl, refl)
advance_phase-Sound c w stored b e h = (h, refl)

advance-Sound :
    (c : Context) (w : Worker) (b : Bus)
    → Sound w
    → Sound (advance c w b).0 × ((advance c w b).0.answer.result ≡ w.answer.result)
unfolding advance
advance-Sound c w b h = advance_phase-Sound c w w.phase b refl h

advance_at-Sound :
    (c : Context) (i : ℕ) (ws : List Worker) (b : Bus)
    → All Sound ws
    → All Sound (advance_at c i ws b).0 × (due (advance_at c i ws b).0 ≡ due ws)
unfolding advance_at
advance_at-Sound c i [] b h = (h, refl)
advance_at-Sound c zero (w ∷ ws) b h =
    let (sound, same) = advance-Sound c w b h.0 in ((sound, h.1), ap (λ r. r ∷ due ws) same)
advance_at-Sound c (suc i) (w ∷ ws) b h =
    let (sound, same) = advance_at-Sound c i ws b h.1 in
    ((h.0, sound), ap (λ rs. w.answer.result ∷ rs) same)

follow-Sound :
    (c : Context) (schedule : List ℕ) (ws : List Worker) (b : Bus)
    → All Sound ws
    → All Sound (follow c schedule ws b).0 × (due (follow c schedule ws b).0 ≡ due ws)
unfolding follow
follow-Sound c [] ws b h = (h, refl)
follow-Sound c (i ∷ schedule) ws b h =
    let (sound, same) = advance_at-Sound c i ws b h in
    let (after, kept) =
      follow-Sound c schedule (advance_at c i ws b).0 (advance_at c i ws b).1 sound in
    (after, kept ∙ same)

move-running :
    (c : Context) (w : Worker) (b : Bus) (es : List Event)
    → w.phase ≡ running es
    → (move c (moves_left w.answer (running es)) w b).0.slot ≡ w.answer.result
unfolding move moves_left advance advance_phase
move-running c w b [] e = rw e refl
move-running c w b (x ∷ xs) e = rw e (move-running c (record w { phase = running xs }) _ xs refl)

-- The moves that a goroutine has left take it to the end.
move-slot :
    (c : Context) (w : Worker) (p : Phase) (b : Bus)
    → w.phase ≡ p
    → Sound w
    → (move c (moves_left w.answer p) w b).0.slot ≡ w.answer.result
unfolding move moves_left advance advance_phase
move-slot c w waiting b e h =
    rw e (move-running c (record w { phase = running w.answer.events }) _ w.answer.events refl)
move-slot c w (running es) b e h = move-running c w b es e
move-slot c w announced b e h = rw e refl
move-slot c w stored b e h = h e

wait-slots :
    (c : Context) (ws : List Worker) (b : Bus)
    → All Sound ws
    → map (λ w. w.slot) (wait c ws b).0 ≡ due ws
unfolding wait
wait-slots c [] b h = refl
wait-slots c (w ∷ ws) b h =
    let first = move-slot c w w.phase b refl h.0 in
    let rest = wait-slots c ws (move c (moves_left w.answer w.phase) w b).1 h.1 in cc

spawn-Sound :
    (answers : Answers) (i : ℕ) (jobs : List Job)
    → All Sound (spawn answers i jobs) × (due (spawn answers i jobs) ≡ results_from answers i jobs)
unfolding spawn
spawn-Sound answers i [] = (tt, refl)
spawn-Sound answers i (job ∷ jobs) =
    let (sound, same) = spawn-Sound answers (suc i) jobs in
    ((λ k. cc, sound), ap (λ rs. (answers i job).result ∷ rs) same)

-- The result of a stage without its goroutines.
abbrev pub stage_result : Surroundings → Stage → StageResult
stage_result around stage = record {
  stage_name = stage.name;
  job_results = results_from around.answers 0 stage.jobs;
  duration = around.ended - around.began;
}

-- Whatever the order in which the goroutines of a stage move, and whether the sink fails or not, the
-- stage's result holds for every job, in the order of the stage, what the runner returned for it.
pub run_stage-result :
    (c : Context) (around : Surroundings) (stage : Stage) (b : Bus)
    → (run_stage c around stage b).0 ≡ stage_result around stage
unfolding run_stage
run_stage-result c around stage b =
    let (sound, same) = spawn-Sound around.answers 0 stage.jobs in
    let ws = spawn around.answers 0 stage.jobs in
    let (after, kept) = follow-Sound c around.schedule ws b sound in
    let (moved, b') = follow c around.schedule ws b in
    let all : map (λ w. w.slot) (wait c moved b').0 ≡ results_from around.answers 0 stage.jobs =
      wait-slots c moved b' after ∙ kept ∙ same in
    cc
