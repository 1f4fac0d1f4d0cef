-- ===== src/Orchestrator/Journal.antt =====
-- The events that a run of internal/orchestrator/orchestrator.go hands to its sink, as one journal.
use odyssey_core_agent.Prelude.{
  ◌-◌, ◌≡◌, refl, sym, ◌∙◌, ap, ℕ, zero, suc, String, Option, none, some, List, [], ◌∷◌, ◌++◌,
  append-nil, append_assoc, All, All-append, Bool-cases, inl, inr, Map,
}
use odyssey_core_agent.Prelude.Error.{Error}
use odyssey_core_agent.Domain.Status.{to_string}
use odyssey_core_agent.Domain.Result.{StageResult, PipelineResult, pipeline_status, stage_status}
use odyssey_core_agent.Domain.Pipeline.{
  Stage, Pipeline, Event, event_pipeline_started, event_pipeline_finished,
}
use odyssey_core_agent.Orchestrator.Bus.{EventSink, Bus, note_refusal, emit, stamp, new_run_id}
use odyssey_core_agent.Orchestrator.Stage.{
  Context, Worker, Phase, waiting, running, announced, stored, job_started_event,
  job_finished_event, Surroundings, advance_phase, advance, advance_at, follow, moves_left, move,
  wait, spawn, run_stage,
}
use odyssey_core_agent.Orchestrator.Run.{
  World, pipeline_event, ends_run, context_of, run_stages, run,
}

module _ (run_id pipeline : String) where
  -- The event carries the identity of its run and of its pipeline.
  abbrev pub OfRun : Event → Type 0
  OfRun e = (e.run_id ≡ run_id) × (e.pipeline ≡ pipeline)

  -- Events of the run, and nothing else, were published between two moments.
  abbrev pub Publishes : Bus → Bus → Type 0
  Publishes b b' = (events : List Event) × (b'.published ≡ b.published ++ events) × All OfRun events

  idle : (b : Bus) → Publishes b b
  idle b = ([], sym (append-nil b.published), tt)

  in_sequence : (b b' b'' : Bus) → Publishes b b' → Publishes b' b'' → Publishes b b''
  in_sequence b b' b'' (xs, e, h) (ys, k, g) =
      let same : b''.published ≡ b.published ++ (xs ++ ys) =
        k ∙ ap (λ es. es ++ ys) e ∙ append_assoc b.published xs ys in
      (xs ++ ys, same, All-append OfRun xs ys h g)

published-note_refusal :
    (refusal : Option Error) (event : Event) (b : Bus)
    → (note_refusal refusal event b).published ≡ b.published
unfolding note_refusal
published-note_refusal none event b = refl
published-note_refusal (some e) event b = refl

pub published-emit :
    {sink : EventSink} {f : List Event → Event → Option Error} (event : Event) (b : Bus)
    → sink ≡ some f
    → (emit sink event b).published ≡ b.published ++ event ∷ []
unfolding emit
published-emit {f = f} event b e = rw e (published-note_refusal (f b.published event) event _)

emit-Publishes :
    (run_id pipeline : String) (sink : EventSink) (event : Event) (b : Bus)
    → OfRun run_id pipeline event
    → Publishes run_id pipeline b (emit sink event b)
unfolding emit
emit-Publishes run_id pipeline none event b h = idle run_id pipeline b
emit-Publishes run_id pipeline (some f) event b h =
    (event ∷ [], published-emit {f = f} event b refl, (h, tt))

module _ (c : Context) where
  advance_phase-Publishes :
      (w : Worker) (p : Phase) (b : Bus) → Publishes c.run_id c.pipeline b (advance_phase c w p b).1
  unfolding advance_phase job_started_event job_finished_event stamp
  advance_phase-Publishes w waiting b = emit-Publishes c.run_id c.pipeline c.sink _ b (refl, refl)
  advance_phase-Publishes w (running []) b =
      emit-Publishes c.run_id c.pipeline c.sink _ b (refl, refl)
  advance_phase-Publishes w (running (x ∷ xs)) b =
      emit-Publishes c.run_id c.pipeline c.sink _ b (refl, refl)
  advance_phase-Publishes w announced b = idle c.run_id c.pipeline b
  advance_phase-Publishes w stored b = idle c.run_id c.pipeline b

  advance_at-Publishes :
      (i : ℕ) (ws : List Worker) (b : Bus) → Publishes c.run_id c.pipeline b (advance_at c i ws b).1
  unfolding advance_at advance
  advance_at-Publishes i [] b = idle c.run_id c.pipeline b
  advance_at-Publishes zero (w ∷ ws) b = advance_phase-Publishes w w.phase b
  advance_at-Publishes (suc i) (w ∷ ws) b = advance_at-Publishes i ws b

  follow-Publishes :
      (schedule : List ℕ) (ws : List Worker) (b : Bus)
      → Publishes c.run_id c.pipeline b (follow c schedule ws b).1
  unfolding follow
  follow-Publishes [] ws b = idle c.run_id c.pipeline b
  follow-Publishes (i ∷ schedule) ws b =
      let (ws', b') = advance_at c i ws b in
      in_sequence c.run_id c.pipeline b b' (follow c schedule ws' b').1
        (advance_at-Publishes i ws b) (follow-Publishes schedule ws' b')

  move-Publishes : (n : ℕ) (w : Worker) (b : Bus) → Publishes c.run_id c.pipeline b (move c n w b).1
  unfolding move advance
  move-Publishes zero w b = idle c.run_id c.pipeline b
  move-Publishes (suc n) w b =
      let (w', b') = advance_phase c w w.phase b in
      in_sequence c.run_id c.pipeline b b' (move c n w' b').1 (advance_phase-Publishes w w.phase b)
        (move-Publishes n w' b')

  wait-Publishes : (ws : List Worker) (b : Bus) → Publishes c.run_id c.pipeline b (wait c ws b).1
  unfolding wait
  wait-Publishes [] b = idle c.run_id c.pipeline b
  wait-Publishes (w ∷ ws) b =
      let n = moves_left w.answer w.phase in
      let (w', b') = move c n w b in
      in_sequence c.run_id c.pipeline b b' (wait c ws b').1 (move-Publishes n w b)
        (wait-Publishes ws b')

  run_stage-Publishes :
      (around : Surroundings) (stage : Stage) (b : Bus)
      → Publishes c.run_id c.pipeline b (run_stage c around stage b).1
  unfolding run_stage
  run_stage-Publishes around stage b =
      let ws = spawn around.answers 0 stage.jobs in
      let (ws', b') = follow c around.schedule ws b in
      in_sequence c.run_id c.pipeline b b' (wait c ws' b').1 (follow-Publishes around.schedule ws b)
        (wait-Publishes ws' b')

run_stages-Publishes :
    (w : World) (run_id pipeline : String) (n : ℕ) (stages : List Stage)
    (results : List StageResult) (b : Bus)
    → Publishes run_id pipeline b (run_stages w run_id pipeline n stages results b).1
unfolding run_stages context_of
run_stages-Publishes w run_id pipeline n [] results b = idle run_id pipeline b
run_stages-Publishes w run_id pipeline n (stage ∷ stages) results b =
    let c = context_of w run_id pipeline stage in
    let (r, b') = run_stage c (w.around n) stage b in
    let first = run_stage-Publishes c (w.around n) stage b in
    elim (Bool-cases (ends_run (stage_status r))) [
      | inl e ↦ rw e first
      | inr e ↦ rw e (
          in_sequence run_id pipeline b b'
            (run_stages w run_id pipeline (suc n) stages (results ++ r ∷ []) b').1 first
            (run_stages-Publishes w run_id pipeline (suc n) stages (results ++ r ∷ []) b'))
    ]

-- The journal of a whole run, for what its result is.
abbrev pub Journal : World → Pipeline → Bus → Type 0
Journal w p b =
    let (result, after) = run w p b in
    (first last : Event) × (between : List Event) × (after.published
      ≡ b.published ++ first ∷ (between ++ last ∷ []))
    × (first.type ≡ event_pipeline_started)
    × (last.type ≡ event_pipeline_finished)
    × (last.payload ≡ ("status", to_string (pipeline_status result)) ∷ [])
    × All (OfRun result.run_id p.name) (first ∷ (between ++ last ∷ []))

abbrev journal_end : World → String → Pipeline → List StageResult → Bus → Event
journal_end w run_id p results b =
    let result : PipelineResult = record {
      run_id = run_id;
      duration = w.ended - w.began;
      pipeline_name = p.name;
      stage_results = results;
    } in
    let payload : Map String = ("status", to_string (pipeline_status result)) ∷ [] in
    pipeline_event w event_pipeline_finished run_id p.name payload b

journal_of :
    (before between : List Event) (first last : Event) {one two three : List Event}
    → one ≡ before ++ first ∷ []
    → two ≡ one ++ between
    → three ≡ two ++ last ∷ []
    → three ≡ before ++ first ∷ (between ++ last ∷ [])
journal_of before between first last h k g =
    let same = append_assoc before (first ∷ []) between in
    let all = append_assoc before (first ∷ between) (last ∷ []) in cc

-- With any sink, whether it fails or not, a run hands it pipeline.started first and
-- pipeline.finished last, with the status of the result that it returns; these and all events
-- between them carry the result's run id and the pipeline's name.
pub run-Journal :
    (w : World) (f : List Event → Event → Option Error) (p : Pipeline) (b : Bus)
    → w.sink ≡ some f
    → Journal w p b
unfolding run pipeline_event
run-Journal w f p b e =
    let run_id = new_run_id w.started w.random in
    let first = pipeline_event w event_pipeline_started run_id p.name [] b in
    let b₁ = emit w.sink first b in
    let (results, b₂) = run_stages w run_id p.name 0 p.stages [] b₁ in
    let last = journal_end w run_id p results b₂ in
    let (between, k, h) = run_stages-Publishes w run_id p.name 0 p.stages [] b₁ in
    (
      first,
      last,
      between,
      journal_of b.published between first last (published-emit first b e) k
          (published-emit last b₂ e),
      refl,
      refl,
      refl,
      ((refl, refl), All-append (OfRun run_id p.name) between (last ∷ []) h ((refl, refl), tt)),
    )
