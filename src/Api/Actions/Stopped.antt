-- ===== src/Api/Actions/Stopped.antt =====
-- The stop action of a process whose child exits while the handler waits.
use dspark_edge.Base.{ℕ, ◌≡◌, refl, ap, ◌∙◌, Option, none, some, [], ◌∷◌, ◌++◌, length}
use dspark_edge.Base.Text.{Text, lit}
use dspark_edge.Types.{ProcId, server, daemon, DashboardConfig, system}
use dspark_edge.Process.{Env, Manager, Child, proc, status_of, to_child, exit_state, on_exit}
use dspark_edge.Process.Lifecycle.{Core, core, core-on_exit, core-push_log, same_proc_refl}
use dspark_edge.Process.Signals.{sent-on_exit}
use dspark_edge.World.{World, exits, stop, stop_wait, step, run}
use dspark_edge.World.Stops.{IsSettledAt, exits-IsSettledAt}
use dspark_edge.World.Escalate.{waiting, stop-stopping, get_elem?-length, sent-stopping}
use dspark_edge.World.Life.{core-send}
use dspark_edge.Panels.{stop_action}
use dspark_edge.Api.Actions.{Timeline, accept, perform}

pub perform-stop_action :
    {N : Type 0} (text : N → Text) (t : Timeline) (id : ProcId) (cfg : DashboardConfig N)
    (w : World)
    → perform text t (stop_action id) cfg w ≡ accept (run t.meanwhile (stop t.first id w))
unfolding perform
perform-stop_action text t server cfg w = refl
perform-stop_action text t daemon cfg w = refl

-- A process without its child, after an exit.
abbrev pub ended : ℕ → Option ℕ → Option Text → Core → Core
ended now code signal k = record {
  child = none;
  status = record k.status {
    state = exit_state code signal;
    pid = none;
    exited_at = some now;
    exit_code = code;
    signal = signal;
  };
}

pub core-ended :
    (e : Env) (id : ProcId) (code : Option ℕ) (signal : Option Text) (m : Manager)
    → core (on_exit e id code signal m) id ≡ ended e.now code signal (core m id)
core-ended e id code signal m = rw (core-on_exit, same_proc_refl) refl

core-stop_wait :
    (e : Env) (id : ProcId) (c : Child) (pid : ℕ) (w : World)
    → core (stop_wait e id c pid w).manager id ≡ core w.manager id
core-stop_wait e id c pid w =
    core-send _ _ id ∙ core-push_log e id id system (lit "stopping…") w.manager

module _ (e e' : Env) (id : ProcId) (c : Child) (pid : ℕ) (code : Option ℕ) (signal : Option Text)
    (w : World) where
  abbrev pub stopped_world : World
  stopped_world = run ((e', exits id c.handle code signal) ∷ []) (stop e id w)

  pub stop_exits :
      (proc w.manager id).child ≡ some c
      → (status_of w.manager id).pid ≡ some pid
      → (stopped_world.manager.sent ≡ w.manager.sent ++ to_child c (lit "SIGINT") ∷ [])
        × IsSettledAt (length w.waits) stopped_world.waits
        × (core stopped_world.manager id ≡ ended e'.now code signal (core w.manager id))
  unfolding run step
  stop_exits held known = rw (stop-stopping e id c pid w held known) (
    sent-on_exit e' id code signal (stop_wait e id c pid w).manager ∙ sent-stopping e id c pid w,
    exits-IsSettledAt e' (length w.waits) id code signal (stop_wait e id c pid w)
        (waiting e id c pid w) (get_elem?-length w.waits _),
    core-ended e' id code signal (stop_wait e id c pid w).manager
        ∙ ap (ended e'.now code signal) (core-stop_wait e id c pid w),
  )
