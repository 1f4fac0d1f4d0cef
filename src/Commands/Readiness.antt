-- ===== src/Commands/Readiness.antt =====
-- What holds of the server that cmd/server/main.go starts.
use Prim.Native.String.{◌++◌}
use Prim.Native.String.append
use Prim.Native.String.compare
use text.Mathlib.Text.{is_eq}
use odyssey_core_agent.Prelude.{
  ℕ, String, Bool, true, false, Option, none, some, ◌≡◌, ◌≢◌, refl, sym, ◌∙◌, ap, ◌==◌, eq_iff, ◌⊎◌,
  inl, inr,
}
use odyssey_core_agent.Prelude.Error.{Error, Result, ok, err}
use odyssey_core_agent.Bus.Publisher.{stream_events}
use odyssey_core_agent.Consumer.Options.{
  Options, default_min_idle, default_max_attempts, default_block, new,
}
use odyssey_core_agent.Commands.Startup.{
  listen_addr, results_path, instance_name, recorder_options, Surroundings, cannot_listen,
  cannot_open_results, cannot_create_runner, Serving, serve_failed, Start, exited, stopped,
  with_server, with_runner, with_recorder, with_results, with_bus, with_listener, start,
}

-- The recorder's consumer, in the group of all recorders, on the event stream.
abbrev pub ready_options : String → Options
ready_options name = record {
  group = "results-recorder";
  consumer = name;
  stream = stream_events;
  min_idle = default_min_idle;
  max_attempts = default_max_attempts;
  block = default_block;
}

append-not_empty : (s t : String) → ((s ++ "-" ++ t) == "") ≡ false
append-not_empty String.[] t =
    ap (λ u. u == "") (append.nil ("-" ++ t) ∙ append.cons _ "" t) ∙ ap is_eq (compare.cons-nil _ _)
append-not_empty (String.◌∷◌ c s) t =
    ap (λ u. u == "") (append.cons c s _) ∙ ap is_eq (compare.cons-nil c _)

unknown-not_empty : (t : String) → (("unknown-" ++ t) == "") ≡ false
unknown-not_empty t = ap (λ u. u == "") (append.cons _ _ t) ∙ ap is_eq (compare.cons-nil _ _)

instance_name-not_empty : (host : Result String) (pid : ℕ) → (instance_name host pid == "") ≡ false
unfolding instance_name
instance_name-not_empty (err e) pid = unknown-not_empty _
instance_name-not_empty (ok host) pid = append-not_empty host _

-- `consumer.New` takes the recorder's options, under any name.
new-recorder_options :
    (name : String)
    → (name == "") ≡ false
    → new false false (recorder_options name) ≡ ok (ready_options name)
unfolding new recorder_options
new-recorder_options name h = rw h refl

-- What a start that went well leaves: the server is at its address; without a Redis address it has no
-- event bus and no recorder, and with one it has both.
pub data Ready (o : Surroundings) (s : Serving) : Type 0 where
  alone : o.getenv "ODYSSEY_REDIS_ADDR" ≡ "" → s.bus ≡ none → s.recorder ≡ none → Ready o s
  recording :
      o.getenv "ODYSSEY_REDIS_ADDR" ≢ ""
      → s.bus ≡ some (o.getenv "ODYSSEY_REDIS_ADDR")
      → o.open_results (results_path (o.getenv "ODYSSEY_RESULTS_DB")) ≡ none
      → s.recorder
        ≡ some (record {
          database = results_path (o.getenv "ODYSSEY_RESULTS_DB");
          consumer = ready_options (instance_name o.hostname o.pid);
        })
      → Ready o s

-- How `main` ends once it listens. `Serve` is called with a server at its address, which has a recorder
-- exactly if it has an event bus.
pub data Went (o : Surroundings) (begun : Start) : Type 0 where
  no_results :
      (e : Error)
      → begun ≡ exited cannot_open_results
      → o.getenv "ODYSSEY_REDIS_ADDR" ≢ ""
      → o.open_results (results_path (o.getenv "ODYSSEY_RESULTS_DB")) ≡ some e
      → Went o begun
  no_runner :
      (s : Serving) (e : Error)
      → begun ≡ exited cannot_create_runner
      → Ready o s
      → o.new_runner ≡ some e
      → Went o begun
  served :
      (s : Serving)
      → s.addr ≡ listen_addr (o.getenv "ODYSSEY_ADDR")
      → Ready o s
      → o.new_runner ≡ none
      → ((begun ≡ stopped s) × (o.serve s.addr ≡ none))
        ⊎ ((e : Error) × (begun ≡ exited (serve_failed s)) × (o.serve s.addr ≡ some e))
      → Went o begun

-- How `main` ends.
pub data Ends (o : Surroundings) (begun : Start) : Type 0 where
  no_listener :
      (e : Error)
      → begun ≡ exited cannot_listen
      → o.listen (listen_addr (o.getenv "ODYSSEY_ADDR")) ≡ some e
      → Ends o begun
  listened : o.listen (listen_addr (o.getenv "ODYSSEY_ADDR")) ≡ none → Went o begun → Ends o begun

module _ (o : Surroundings) where
  with_server-served :
      (s : Serving) (e : Option Error)
      → o.serve s.addr ≡ e
      → ((with_server e s ≡ stopped s) × (o.serve s.addr ≡ none))
        ⊎ ((f : Error) × (with_server e s ≡ exited (serve_failed s)) × (o.serve s.addr ≡ some f))
  unfolding with_server
  with_server-served s (some e) h = inr (e, refl, h)
  with_server-served s none h = inl (refl, h)

  with_runner-Ends :
      (e : Option Error) (s : Serving)
      → o.new_runner ≡ e
      → s.addr ≡ listen_addr (o.getenv "ODYSSEY_ADDR")
      → Ready o s
      → Went o (with_runner o e s)
  unfolding with_runner
  with_runner-Ends (some e) s h at r = no_runner s e refl r h
  with_runner-Ends none s h at r = served s at r h (with_server-served s _ refl)

  with_recorder-Ends :
      (addr redis path : String) (opts : Result Options)
      → opts ≡ ok (ready_options (instance_name o.hostname o.pid))
      → addr ≡ listen_addr (o.getenv "ODYSSEY_ADDR")
      → redis ≡ o.getenv "ODYSSEY_REDIS_ADDR"
      → redis ≢ ""
      → path ≡ results_path (o.getenv "ODYSSEY_RESULTS_DB")
      → o.open_results path ≡ none
      → Went o (with_recorder o addr redis path opts)
  unfolding with_recorder
  with_recorder-Ends addr redis path (err e) built at bus set db opened = cc
  with_recorder-Ends addr redis path (ok opts) built at bus set db opened =
      let same : opts ≡ ready_options (instance_name o.hostname o.pid) = cc in
      with_runner-Ends o.new_runner _ refl at
        (recording (λ h. set (bus ∙ h)) (ap some bus) (ap o.open_results (sym db) ∙ opened) cc)

  with_results-Ends :
      (addr redis path : String) (e : Option Error)
      → addr ≡ listen_addr (o.getenv "ODYSSEY_ADDR")
      → redis ≡ o.getenv "ODYSSEY_REDIS_ADDR"
      → redis ≢ ""
      → path ≡ results_path (o.getenv "ODYSSEY_RESULTS_DB")
      → o.open_results path ≡ e
      → Went o (with_results o addr redis path e)
  unfolding with_results
  with_results-Ends addr redis path (some e) at bus set db opened =
      no_results e refl (λ h. set (bus ∙ h)) (ap o.open_results (sym db) ∙ opened)
  with_results-Ends addr redis path none at bus set db opened =
      with_recorder-Ends addr redis path _
        (new-recorder_options _ (instance_name-not_empty o.hostname o.pid)) at bus set db opened

  with_bus-Ends :
      (addr redis : String) (disabled : Bool)
      → addr ≡ listen_addr (o.getenv "ODYSSEY_ADDR")
      → redis ≡ o.getenv "ODYSSEY_REDIS_ADDR"
      → (redis == "") ≡ disabled
      → Went o (with_bus o addr redis disabled)
  unfolding with_bus
  with_bus-Ends addr redis true at bus off =
      with_runner-Ends o.new_runner _ refl at (alone (sym bus ∙ (eq_iff redis "").0 off) refl refl)
  with_bus-Ends addr redis false at bus on =
      with_results-Ends addr redis _ _ at bus (set redis on) refl refl
    where
      set : (s : String) → (s == "") ≡ false → s ≢ ""
      set s h = λ e. let empty = (eq_iff s "").1 e in cc

  with_listener-Ends :
      (addr : String) (e : Option Error)
      → addr ≡ listen_addr (o.getenv "ODYSSEY_ADDR")
      → o.listen addr ≡ e
      → Ends o (with_listener o addr e)
  unfolding with_listener
  with_listener-Ends addr (some e) at h = no_listener e refl (ap o.listen (sym at) ∙ h)
  with_listener-Ends addr none at h =
      listened (ap o.listen (sym at) ∙ h) (with_bus-Ends addr _ _ at refl refl)

  -- `main` exits with an error if it cannot listen at its address; else, if it has a Redis address and
  -- cannot open the results database; else, if it cannot create a runner; else, if `Serve` fails, and
  -- for no other reason: the recorder's consumer is always built. `Serve` is called with a server at that
  -- address, which has an event bus and a recorder, whose database is open and whose consumer is in the
  -- group of the recorders on the event stream, exactly if it has a Redis address.
  pub start-Ends : Ends o (start o)
  unfolding start
  start-Ends = with_listener-Ends _ _ refl refl
