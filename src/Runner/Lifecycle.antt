-- ===== src/Runner/Lifecycle.antt =====
-- The container calls of one `DockerRunner.Run` of internal/runner/docker.go, from its first to its last.
use odyssey_core_agent.Prelude.{
  ℕ, String, List, [], ◌∷◌, ◌++◌, append_assoc, append-nil, Option, none, some, ◌≡◌, refl, sym, ◌∙◌,
  ap, arith, All, ◌⊎◌, inl, inr,
}
use odyssey_core_agent.Prelude.Error.{Error, Result, ok, err}
use odyssey_core_agent.Domain.Pipeline.{Job}
use odyssey_core_agent.Runner.Docker.{run_context, teardown_context, Docker}
use odyssey_core_agent.Runner.Session.{
  Call, created, copied, started, removed, StepSink, Session, ask, log_call,
}
use odyssey_core_agent.Runner.Container.{
  after_pull_request, pull_image, after_archive, mount_archive, after_mount, after_create,
  create_container, start_container, remove_container, work_dir,
}
use odyssey_core_agent.Runner.Job.{
  after_setup, after_start, run_in_container, run_created, after_pull, run_job,
}
use odyssey_core_agent.Runner.Growth.{
  ExecIn, Execs, Execs-trans, Execs-same, Execs-run_steps, Execs-run_setup,
}

-- The calls of one run: no container was created; one was, and it was removed at once because the
-- project could not be copied into it; or it was started, used and removed under the context that the
-- run's cancellation does not reach.
pub data Lifecycle (calls : List Call) : Type 0 where
  no_container : calls ≡ [] → Lifecycle calls
  not_mounted :
      (id : String)
      → (calls ≡ created id ∷ removed run_context id ∷ [])
        ⊎ (calls ≡ created id ∷ copied id ∷ removed run_context id ∷ [])
      → Lifecycle calls
  torn_down :
      (id : String) (commands : List Call)
      → All (ExecIn id) commands
      → calls ≡ created id ∷ copied id ∷ started id ∷ commands ++ removed teardown_context id ∷ []
      → Lifecycle calls

-- The calls that stand behind those made before.
pub record Since {d : Docker} (P : List Call → Type 0) (s t : Session d) : Type 0 where
  pub new : List Call
  pub calls : t.calls ≡ s.calls ++ new
  pub shape : P new

-- How creating a container can end, with the calls that it made.
data Creation (r : Result String) (calls : List Call) : Type 0 where
  refused : (e : Error) → r ≡ err e → calls ≡ [] → Creation r calls
  unmounted :
      (id : String) (e : Error)
      → r ≡ err e
      → (calls ≡ created id ∷ removed run_context id ∷ [])
        ⊎ (calls ≡ created id ∷ copied id ∷ removed run_context id ∷ [])
      → Creation r calls
  mounted : (id : String) → r ≡ ok id → calls ≡ created id ∷ copied id ∷ [] → Creation r calls

module _ {d : Docker} where
  calls-pull_image : (img : String) (s : Session d) → (pull_image img s).1.calls ≡ s.calls
  unfolding pull_image after_pull_request ask
  calls-pull_image img s = ground arith

module _ {d : Docker} (s : Session d) where
  not_copied :
      (id : String) (e : Error) (t : Session d) (l : List Call)
      → t.calls ≡ s.calls ++ l
      → (l ≡ created id ∷ []) ⊎ (l ≡ created id ∷ copied id ∷ [])
      → Since (Creation (after_mount id (some e) t).0) s (after_mount id (some e) t).1
  unfolding after_mount remove_container log_call ask
  not_copied id e t l h c = record {
    new = l ++ removed run_context id ∷ [];
    calls = ap (λ k. k ++ removed run_context id ∷ []) h ∙ append_assoc s.calls l _;
    shape = unmounted id _ refl (elim c [ inl q ↦ inl (rw q) | inr q ↦ inr (rw q) ]);
  }

  answered :
      (id : String) (m : Option Error) (t : Session d)
      → t.calls ≡ s.calls ++ created id ∷ copied id ∷ []
      → Since (Creation (after_mount id m t).0) s (after_mount id m t).1
  unfolding after_mount
  answered id (some e) t h = not_copied id e t _ h (inr refl)
  answered id none t h = record { new = _; calls = h; shape = mounted id refl refl }

  archived :
      (id : String) (r : Result (List ℕ)) (t : Session d)
      → t.calls ≡ s.calls ++ created id ∷ []
      → let m = after_archive id work_dir r t in
        Since (Creation (after_mount id m.0 m.1).0) s (after_mount id m.0 m.1).1
  unfolding after_archive log_call ask
  archived id (err e) t h = not_copied id e t _ h (inl refl)
  archived id (ok []) t h = not_copied id _ t _ h (inl refl)
  archived id (ok (b ∷ bs)) t h =
      answered id _ _ (ap (λ k. k ++ copied id ∷ []) h ∙ append_assoc s.calls _ _)

  created_or_not :
      (path : String) (r : Result String) (t : Session d)
      → t.calls ≡ s.calls
      → Since (Creation (after_create path r t).0) s (after_create path r t).1
  unfolding after_create mount_archive log_call ask
  created_or_not path (err e) t h = record {
    new = [];
    calls = h ∙ sym (append-nil s.calls);
    shape = refused e refl refl;
  }
  created_or_not path (ok id) t h = archived id _ _ (ap (λ k. k ++ created id ∷ []) h)

  create_container-Creation :
      (job : Job) (path : String)
      → Since (Creation (create_container job path s).0) s (create_container job path s).1
  unfolding create_container ask
  create_container-Creation job path = created_or_not path _ _ refl

-- Two calls and a list between them, behind what stands in `y`.
appended :
    (a b : Call) {x : List Call} (y base l n : List Call)
    → x ≡ (y ++ a ∷ []) ++ n
    → y ≡ base ++ l
    → x ++ b ∷ [] ≡ base ++ (l ++ a ∷ n ++ b ∷ [])
appended a b y base l n p q = rw (p, q) (simp append_assoc)

module _ {d : Docker} (sink : StepSink d) (job : Job) where
  Execs-after_setup :
      (id : String) (e : Option Error) (s : Session d) → Execs id s (after_setup sink job id e s).1
  unfolding after_setup
  Execs-after_setup id (some e) s = Execs-same s s refl
  Execs-after_setup id none s = Execs-run_steps sink id job.name job.steps [] s

  Execs-after_start :
      (id : String) (e : Option Error) (s : Session d) → Execs id s (after_start sink job id e s).1
  unfolding after_start
  Execs-after_start id (some e) s = Execs-same s s refl
  Execs-after_start id none s =
      Execs-trans (Execs-run_setup id job.setup s) (Execs-after_setup id _ _)

  after_creation :
      (r : Result String) (s t : Session d)
      → Since (Creation r) s t
      → Since Lifecycle s (run_created sink job r t).1
  unfolding run_created run_in_container start_container remove_container log_call ask
  after_creation (err e) s t h = record { new = h.new; calls = h.calls; shape = closed h.shape }
    where
      closed : Creation (err e) h.new → Lifecycle h.new
      closed (refused f q c) = no_container c
      closed (unmounted id f q c) = not_mounted id c
      closed (mounted id q c) = cc
  after_creation (ok id) s t h = closed h.shape
    where
      run : Execs id (start_container id t).1 (run_in_container sink job id t).1
      run = Execs-after_start id _ (start_container id t).1

      same : (i : String) → ok id ≡ ok i → i ≡ id
      same i q = cc

      closed : Creation (ok id) h.new → Since Lifecycle s (run_created sink job (ok id) t).1
      closed (refused f q c) = cc
      closed (unmounted i f q c) = cc
      closed (mounted i q c) = record {
        new = h.new ++ started id ∷ run.new ++ removed teardown_context id ∷ [];
        calls = appended _ _ t.calls s.calls h.new run.new run.calls h.calls;
        shape = torn_down id run.new run.only (rw (c, same i q));
      }

  after_pull-Lifecycle :
      (path : String) (e : Option Error) (s t : Session d)
      → t.calls ≡ s.calls
      → Since Lifecycle s (after_pull sink job path e t).1
  unfolding after_pull
  after_pull-Lifecycle path (some e) s t h = record {
    new = [];
    calls = h ∙ sym (append-nil s.calls);
    shape = no_container refl;
  }
  after_pull-Lifecycle path none s t h = after_creation _ s _ (
      let c = create_container-Creation t job path in
      record { new = c.new; calls = c.calls ∙ ap (λ k. k ++ c.new) h; shape = c.shape })

  -- Whatever the client answers, one run adds calls of this shape: a container that was created is
  -- removed by the last of them, all its commands come between its start and its removal, and no other
  -- container is touched.
  pub run_job-Lifecycle :
      (path : String) (s : Session d) → Since Lifecycle s (run_job sink job path s).1
  unfolding run_job
  run_job-Lifecycle path s = after_pull-Lifecycle path _ s _ (calls-pull_image job.image s)
