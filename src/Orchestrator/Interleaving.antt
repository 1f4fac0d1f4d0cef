-- ===== src/Orchestrator/Interleaving.antt =====
-- The order of the events of one stage of internal/orchestrator/orchestrator.go.
use odyssey_core_agent.Prelude.{
  ◌≡◌, refl, sym, ◌∙◌, ap, subst, ℕ, zero, suc, String, Option, some, List, [], ◌∷◌, ◌++◌,
  append-nil, append_assoc, map, map-append,
}
use odyssey_core_agent.Prelude.Error.{Error}
use odyssey_core_agent.Prelude.Shuffle.{Shuffle, still, Shuffle-trans, Shuffle-here, Shuffle-there}
use odyssey_core_agent.Domain.Status.{to_string}
use odyssey_core_agent.Domain.Result.{JobResult, job_status}
use odyssey_core_agent.Domain.Pipeline.{Job, Stage, Event, event_job_started, event_job_finished}
use odyssey_core_agent.Orchestrator.Bus.{Bus, stamp}
use odyssey_core_agent.Orchestrator.Stage.{
  Answer, Answers, Context, Worker, Phase, waiting, running, announced, stored, job_started_event,
  job_finished_event, Surroundings, advance_phase, advance, advance_at, follow, moves_left, move,
  wait, spawn, run_stage,
}
use odyssey_core_agent.Orchestrator.Journal.{published-emit}

-- An event without the instant at which it was made.
abbrev pub untimed : Event → Event
untimed e = record e { occurred_at = 0 }

abbrev pub nothing_left : {A : Type 0} → List A → List (List Event)
nothing_left xs = map (λ x. []) xs

module _ (c : Context) where
  abbrev pub job_event : String → Job → String → String → Event
  job_event type job key value = record {
    type = type;
    occurred_at = 0;
    run_id = c.run_id;
    pipeline = c.pipeline;
    job = job.name;
    step = "";
    payload = (key, value) ∷ [];
  }

  -- The events of one job: its start, what the runner reported with the run's identity in it, and
  -- its end with the status of its result.
  abbrev pub rest_of_job : Job → JobResult → List Event → List Event
  rest_of_job job r es =
      map (λ e. untimed (record e { pipeline = c.pipeline; run_id = c.run_id })) es
      ++ job_event event_job_finished job "status" (to_string (job_status r)) ∷ []

  abbrev pub job_events : Job → Answer → List Event
  job_events job a =
      job_event event_job_started job "stage" c.stage ∷ rest_of_job job a.result a.events

  abbrev pub events_from : Answers → ℕ → List Job → List (List Event)
  events_from answers i [] = []
  events_from answers i (job ∷ jobs) =
      job_events job (answers i job) ∷ events_from answers (suc i) jobs

  -- What a goroutine has still to publish.
  abbrev to_come : Worker → Phase → List Event
  to_come w waiting = job_events w.job w.answer
  to_come w (running es) = rest_of_job w.job w.answer.result es
  to_come w announced = []
  to_come w stored = []

  -- Between two moments one goroutine published the first of these events, and has the others left.
  abbrev Publishes : Bus → Bus → List Event → List Event → Type 0
  Publishes b b' due left =
      (es : List Event) × (b'.published ≡ b.published ++ es) × (due ≡ map untimed es ++ left)

  publish_more :
      (b b' b'' : Bus) {xs ys zs : List Event}
      → Publishes b b' xs ys
      → Publishes b' b'' ys zs
      → Publishes b b'' xs zs
  publish_more b b' b'' {zs = zs} (es, k, h) (fs, l, g) =
      let same = append_assoc b.published es fs in
      let due = append_assoc (map untimed es) (map untimed fs) zs in
      let mapped = map-append untimed es fs in (es ++ fs, cc, cc)

  -- The same of all goroutines.
  abbrev pub Interleaves : Bus → Bus → List (List Event) → List (List Event) → Type 0
  Interleaves b b' due left =
      (es : List Event) × (b'.published ≡ b.published ++ es) × Shuffle due (map untimed es) left

  nothing : (b : Bus) (due : List (List Event)) → Interleaves b b due due
  nothing b due = ([], sym (append-nil b.published), still)

  interleave_more :
      (b b' b'' : Bus) {xs ys zs : List (List Event)}
      → Interleaves b b' xs ys
      → Interleaves b' b'' ys zs
      → Interleaves b b'' xs zs
  interleave_more b b' b'' {xs = xs} {zs = zs} (es, k, h) (fs, l, g) =
      let same = append_assoc b.published es fs in
      (
        es ++ fs,
        cc,
        subst (λ es. Shuffle xs es zs) (sym (map-append untimed es fs)) (Shuffle-trans h g),
      )

  of_first :
      (b b' : Bus) {xs ys : List Event} (others : List (List Event))
      → Publishes b b' xs ys
      → Interleaves b b' (xs ∷ others) (ys ∷ others)
  of_first b b' {ys = ys} others (es, k, h) =
      let all = Shuffle-here (map untimed es) in
      (es, k, subst (λ xs. Shuffle (xs ∷ others) (map untimed es) (ys ∷ others)) (sym h) all)

  of_others :
      (b b' : Bus) {xs ys : List (List Event)} (es : List Event)
      → Interleaves b b' xs ys
      → Interleaves b b' (es ∷ xs) (es ∷ ys)
  of_others b b' first (es, k, h) = (es, k, Shuffle-there h)

  module _ (f : List Event → Event → Option Error) (on : c.sink ≡ some f) where
    advance_phase-Publishes :
        (w : Worker) (p : Phase) (b : Bus)
        → w.phase ≡ p
        → Publishes b
            (advance_phase c w p b).1
            (to_come w p)
            (to_come (advance_phase c w p b).0 (advance_phase c w p b).0.phase)
    unfolding advance_phase job_started_event job_finished_event stamp
    advance_phase-Publishes w waiting b at =
        (job_started_event c w.job b ∷ [], published-emit _ b on, refl)
    advance_phase-Publishes w (running []) b at =
        (job_finished_event c w.job w.answer.result b ∷ [], published-emit _ b on, refl)
    advance_phase-Publishes w (running (e ∷ es)) b at =
        (stamp c.pipeline c.run_id e ∷ [], published-emit _ b on, refl)
    advance_phase-Publishes w announced b at = ([], sym (append-nil _), refl)
    advance_phase-Publishes w stored b at = ([], sym (append-nil _), ap (to_come w) (sym at))

    abbrev all_to_come : List Worker → List (List Event)
    all_to_come ws = map (λ w. to_come w w.phase) ws

    advance_at-Interleaves :
        (i : ℕ) (ws : List Worker) (b : Bus)
        → Interleaves b
            (advance_at c i ws b).1
            (all_to_come ws)
            (all_to_come (advance_at c i ws b).0)
    unfolding advance_at advance
    advance_at-Interleaves i [] b = nothing b []
    advance_at-Interleaves zero (w ∷ ws) b =
        of_first b (advance_phase c w w.phase b).1 (all_to_come ws)
          (advance_phase-Publishes w w.phase b refl)
    advance_at-Interleaves (suc i) (w ∷ ws) b =
        of_others b (advance_at c i ws b).1 (to_come w w.phase) (advance_at-Interleaves i ws b)

    follow-Interleaves :
        (schedule : List ℕ) (ws : List Worker) (b : Bus)
        → Interleaves b
            (follow c schedule ws b).1
            (all_to_come ws)
            (all_to_come (follow c schedule ws b).0)
    unfolding follow
    follow-Interleaves [] ws b = nothing b (all_to_come ws)
    follow-Interleaves (i ∷ schedule) ws b =
        let (ws', b') = advance_at c i ws b in
        interleave_more b b' (follow c schedule ws' b').1 (advance_at-Interleaves i ws b)
          (follow-Interleaves schedule ws' b')

    move-Publishes :
        (n : ℕ) (w : Worker) (b : Bus)
        → Publishes b
            (move c n w b).1
            (to_come w w.phase)
            (to_come (move c n w b).0 (move c n w b).0.phase)
    unfolding move advance
    move-Publishes zero w b = ([], sym (append-nil b.published), refl)
    move-Publishes (suc n) w b =
        let (w', b') = advance_phase c w w.phase b in
        publish_more b b' (move c n w' b').1 (advance_phase-Publishes w w.phase b refl)
          (move-Publishes n w' b')

    move_running-stored :
        (w : Worker) (b : Bus) (es : List Event)
        → w.phase ≡ running es
        → (move c (moves_left w.answer (running es)) w b).0.phase ≡ stored
    unfolding move moves_left advance advance_phase
    move_running-stored w b [] e = rw e refl
    move_running-stored w b (x ∷ xs) e =
        rw e (move_running-stored (record w { phase = running xs }) _ xs refl)

    move-stored :
        (w : Worker) (p : Phase) (b : Bus)
        → w.phase ≡ p
        → (move c (moves_left w.answer p) w b).0.phase ≡ stored
    unfolding move moves_left advance advance_phase
    move-stored w waiting b e =
        rw e (
          move_running-stored (record w { phase = running w.answer.events }) _ w.answer.events refl)
    move-stored w (running es) b e = move_running-stored w b es e
    move-stored w announced b e = rw e refl
    move-stored w stored b e = e

    wait-Interleaves :
        (ws : List Worker) (b : Bus)
        → Interleaves b (wait c ws b).1 (all_to_come ws) (nothing_left ws)
    unfolding wait
    wait-Interleaves [] b = nothing b []
    wait-Interleaves (w ∷ ws) b =
        let n = moves_left w.answer w.phase in
        let (w', b') = move c n w b in
        let first : Publishes b b' (to_come w w.phase) [] =
          subst (λ p. Publishes b b' (to_come w w.phase) (to_come w' p))
            (move-stored w w.phase b refl) (move-Publishes n w b) in
        interleave_more b b' (wait c ws b').1 (of_first b b' (all_to_come ws) first)
          (of_others b' (wait c ws b').1 [] (wait-Interleaves ws b'))

    spawn-to_come :
        (answers : Answers) (i : ℕ) (jobs : List Job)
        → (all_to_come (spawn answers i jobs) ≡ events_from answers i jobs)
          × (nothing_left (spawn answers i jobs) ≡ nothing_left jobs)
    unfolding spawn
    spawn-to_come answers i [] = (refl, refl)
    spawn-to_come answers i (job ∷ jobs) =
        let (due, left) = spawn-to_come answers (suc i) jobs in (cc, cc)

    advance_at-same_number :
        (i : ℕ) (ws : List Worker) (b : Bus)
        → nothing_left (advance_at c i ws b).0 ≡ nothing_left ws
    unfolding advance_at
    advance_at-same_number i [] b = refl
    advance_at-same_number zero (w ∷ ws) b = refl
    advance_at-same_number (suc i) (w ∷ ws) b = let same = advance_at-same_number i ws b in cc

    follow-same_number :
        (schedule : List ℕ) (ws : List Worker) (b : Bus)
        → nothing_left (follow c schedule ws b).0 ≡ nothing_left ws
    unfolding follow
    follow-same_number [] ws b = refl
    follow-same_number (i ∷ schedule) ws b =
        let (ws', b') = advance_at c i ws b in
        follow-same_number schedule ws' b' ∙ advance_at-same_number i ws b

    -- With any sink, whether it fails or not, and whatever the order in which the goroutines of a
    -- stage move, the events published by the stage are an interleaving of those of its jobs, none
    -- left over: for each job its job.started, all events of its steps in their order, stamped with
    -- the run, and its job.finished with the status of its result.
    pub run_stage-Interleaves :
        (around : Surroundings) (stage : Stage) (b : Bus)
        → Interleaves b
            (run_stage c around stage b).1
            (events_from around.answers 0 stage.jobs)
            (nothing_left stage.jobs)
    unfolding run_stage
    run_stage-Interleaves around stage b =
        let ws = spawn around.answers 0 stage.jobs in
        let (moved, b') = follow c around.schedule ws b in
        let (due, left) = spawn-to_come around.answers 0 stage.jobs in
        let all : Interleaves b (wait c moved b').1 (all_to_come ws) (nothing_left moved) =
          interleave_more b b' (wait c moved b').1 (follow-Interleaves around.schedule ws b)
            (wait-Interleaves moved b') in
        let kept : nothing_left moved ≡ nothing_left ws = follow-same_number around.schedule ws b in
        subst (λ xs. Interleaves b (wait c moved b').1 xs (nothing_left stage.jobs)) due
          (subst (λ xs. Interleaves b (wait c moved b').1 (all_to_come ws) xs) (kept ∙ left) all)
