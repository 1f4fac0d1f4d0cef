-- ===== src/Orchestrator/Stage.antt =====
-- `runStage` of internal/orchestrator/orchestrator.go: one goroutine for each job of the stage.
use odyssey_core_agent.Prelude.{ℕ, ◌-◌, zero, suc, String, List, [], ◌∷◌, Option, none, map, length}
use odyssey_core_agent.Prelude.Error.{Error}
use odyssey_core_agent.Domain.Status.{to_string}
use odyssey_core_agent.Domain.Result.{JobResult, StageResult, job_status}
use odyssey_core_agent.Domain.Pipeline.{Job, Stage, Event, event_job_started, event_job_finished}
use odyssey_core_agent.Orchestrator.Bus.{EventSink, Bus, emit, stamp}

-- What the runner does with a job: the result and the error that it returns, and the events that it
-- hands to its sink on the way.
pub record Answer : Type 0 where
  pub result : JobResult
  pub err : Option Error
  pub events : List Event

-- How far a goroutine is: not begun, in the runner with these events to come, back from it with the
-- job's end announced, or done, its result stored.
pub data Phase : Type 0 where
  waiting announced stored : Phase
  running : List Event → Phase

-- One goroutine, with its slot of `jobResults`.
pub record Worker : Type 0 where
  pub job : Job
  pub answer : Answer
  pub phase : Phase
  pub slot : JobResult

-- The zero value of a `JobResult`.
abbrev pub zero_result : JobResult
zero_result = record { job_name = ""; step_results = []; setup_err = none }

-- What the goroutines of a stage share.
pub record Context : Type 0 where
  pub sink : EventSink
  pub pipeline : String
  pub run_id : String
  pub stage : String
  -- The instant at which the n-th event is made.
  pub clock : ℕ → ℕ

unfoldable pub job_started_event : Context → Job → Bus → Event
job_started_event c job b = record {
  type = event_job_started;
  occurred_at = c.clock (length b.published);
  run_id = c.run_id;
  pipeline = c.pipeline;
  job = job.name;
  step = "";
  payload = ("stage", c.stage) ∷ [];
}

unfoldable pub job_finished_event : Context → Job → JobResult → Bus → Event
job_finished_event c job r b = record {
  type = event_job_finished;
  occurred_at = c.clock (length b.published);
  run_id = c.run_id;
  pipeline = c.pipeline;
  job = job.name;
  step = "";
  payload = ("status", to_string (job_status r)) ∷ [];
}

-- What a goroutine does next: announce the start, pass on one event of the runner, announce the end,
-- store the result.
unfoldable pub advance_phase : Context → Worker → Phase → Bus → Worker × Bus
advance_phase c w waiting b =
    (record w { phase = running w.answer.events }, emit c.sink (job_started_event c w.job b) b)
advance_phase c w (running (e ∷ es)) b =
    (record w { phase = running es }, emit c.sink (stamp c.pipeline c.run_id e) b)
advance_phase c w (running []) b =
    (record w { phase = announced }, emit c.sink (job_finished_event c w.job w.answer.result b) b)
advance_phase c w announced b = (record w { phase = stored; slot = w.answer.result }, b)
advance_phase c w stored b = (w, b)

unfoldable pub advance : Context → Worker → Bus → Worker × Bus
advance c w b = advance_phase c w w.phase b

-- The goroutine that the scheduler picks makes one move; a number out of range picks none.
unfoldable pub advance_at : Context → ℕ → List Worker → Bus → List Worker × Bus
advance_at c i [] b = ([], b)
advance_at c zero (w ∷ ws) b = let (w', b') = advance c w b in (w' ∷ ws, b')
advance_at c (suc i) (w ∷ ws) b = let (ws', b') = advance_at c i ws b in (w ∷ ws', b')

unfoldable pub follow : Context → List ℕ → List Worker → Bus → List Worker × Bus
follow c [] ws b = (ws, b)
follow c (i ∷ schedule) ws b = let (ws', b') = advance_at c i ws b in follow c schedule ws' b'

-- The moves that a goroutine with this answer has left.
unfoldable pub moves_left : Answer → Phase → ℕ
moves_left a waiting = suc (suc (suc (length a.events)))
moves_left a (running es) = suc (suc (length es))
moves_left a announced = 1
moves_left a stored = 0

unfoldable pub move : Context → ℕ → Worker → Bus → Worker × Bus
move c zero w b = (w, b)
move c (suc n) w b = let (w', b') = advance c w b in move c n w' b'

-- `g.Wait`: what the schedule left to do is done, goroutine by goroutine.
unfoldable pub wait : Context → List Worker → Bus → List Worker × Bus
wait c [] b = ([], b)
wait c (w ∷ ws) b =
    let (w', b') = move c (moves_left w.answer w.phase) w b in
    let (ws', b'') = wait c ws b' in (w' ∷ ws', b'')

-- The runner answers a job, knowing its index in the stage.
abbrev pub Answers : Type 0
Answers = ℕ → Job → Answer

unfoldable pub spawn : Answers → ℕ → List Job → List Worker
spawn answers i [] = []
spawn answers i (job ∷ jobs) =
    record { job = job; answer = answers i job; phase = waiting; slot = zero_result }
    ∷ spawn answers (suc i) jobs

-- What the world does while one stage runs: the runner's answers, the order in which the goroutines
-- move, and what the monotonic clock reads when the stage begins and when its last goroutine is done.
pub record Surroundings : Type 0 where
  pub answers : Answers
  pub schedule : List ℕ
  pub began : ℕ
  pub ended : ℕ

unfoldable pub run_stage : Context → Surroundings → Stage → Bus → StageResult × Bus
run_stage c around stage b =
    let (ws, b') = follow c around.schedule (spawn around.answers 0 stage.jobs) b in
    let (done, b'') = wait c ws b' in
    (
      record {
        stage_name = stage.name;
        job_results = map (λ w. w.slot) done;
        duration = around.ended - around.began;
      },
      b'',
    )
