-- ===== src/World.antt =====
-- The manager among its children and timers: `stop` of
-- tools/llama-dspark-test-ui/lib/process-manager.ts, whose promise waits for the child's exit and
-- sends stronger signals on two timers, and the events that run between two calls.
pub mod Stops
pub mod Escalate
pub mod Keeps
pub mod Reach
pub mod Followed
pub mod Life
pub mod Orphan
pub mod Shapes
pub mod Aims
pub mod Timers
pub mod Astray
pub mod Silent
mod Tests
mod LifeTests
use dspark_edge.Base.{
  ℕ, ◌≡◌, Bool, true, false, ◌&&◌, not, Option, none, some, List, [], ◌∷◌, ◌++◌, ◌==◌,
  if◌then◌else◌, get_elem?, set, map,
}
use dspark_edge.Base.Text.{Text, lit}
use dspark_edge.Types.{ProcId, stopped, starting, running, ProcStatus, Stream, system}
use dspark_edge.Process.{
  Env, Manager, Child, Sent, to_child, kill_pid, proc, status_of, send, push_log, update_status,
  start, Outcome, on_data, on_error, on_exit, new,
}

-- A call of `stop` that waits: its process, the child it signalled, the pid it read then, whether
-- its first timer is still to fire, and whether its promise is resolved (`settled`).
pub record Wait : Type 0 where
  pub proc : ProcId
  pub child : Child
  pub pid : ℕ
  pub armed : Bool
  pub settled : Bool

-- The calls of `stop` that had to wait stand in the order of the calls.
pub record World : Type 0 where
  pub manager : Manager
  pub waits : List Wait

unfoldable pub initial : World
initial = record { manager = new; waits = [] }

-- Nothing to stop: no child, or a status without a pid.
abbrev pub stop_idle : ProcId → Manager → Manager
stop_idle id m = update_status id (λ s. record s { state = stopped }) m

abbrev pub stop_wait : Env → ProcId → Child → ℕ → World → World
stop_wait e id c pid w = record {
  manager = send (to_child c (lit "SIGINT")) (push_log e id system (lit "stopping…") w.manager);
  waits = w.waits ++ record { proc = id; child = c; pid = pid; armed = true; settled = false } ∷ [];
}

-- `stop` up to its `await`, on the child and the pid that it reads.
pub stop_with : Env → ProcId → Option Child → Option ℕ → World → World
stop_with e id none pid w = record w { manager = stop_idle id w.manager }
stop_with e id (some c) none w = record w { manager = stop_idle id w.manager }
stop_with e id (some c) (some pid) w = stop_wait e id c pid w

pub stop : Env → ProcId → World → World
unfolding stop_with
stop e id w = stop_with e id (proc w.manager id).child (status_of w.manager id).pid w

-- `done` of a wait: once settled it stays so, and its timers are cleared.
abbrev pub settle : Wait → Wait
settle t = record t { settled = true; armed = false }

-- `child.once("exit", done)`
abbrev pub settle_exited : ℕ → Wait → Wait
settle_exited handle t = if t.child.handle == handle then settle t else t

abbrev pub term_child : Option Child → Manager → Manager
term_child none m = m
term_child (some c) m = send (to_child c (lit "SIGTERM")) m

-- The first timer: SIGTERM to the process's child of that moment.
pub fire_term : ℕ → Option Wait → World → World
fire_term n none w = w
fire_term n (some t) w =
    if t.armed && not t.settled
    then record {
      manager = term_child (proc w.manager t.proc).child w.manager;
      waits = set w.waits n (record t { armed = false });
    }
    else w

-- The second timer: SIGKILL to the pid that `stop` read, unless that is 0, and `done`.
pub fire_kill : ℕ → Option Wait → World → World
fire_kill n none w = w
fire_kill n (some t) w = if t.settled then w else record {
  manager = if t.pid == 0 then w.manager else send (kill_pid t.pid) w.manager;
  waits = set w.waits n (settle t);
}

-- What can happen next: a call, an event of a child, or the timer of the nth waiting `stop`. The
-- listeners of a child were attached by `start`, under the name of its process.
pub data Event : Type 0 where
  starts : ProcId → Text → List Text → Event
  stops : ProcId → Event
  output : ProcId → Stream → Text → Event
  fails : ProcId → Text → Event
  exits : ProcId → (handle : ℕ) → Option ℕ → Option Text → Event
  term_timer : ℕ → Event
  kill_timer : ℕ → Event

unfoldable pub step : Env → Event → World → World
step e (starts id bin args) w = record w { manager = (start e id bin args w.manager).0 }
step e (stops id) w = stop e id w
step e (output id stream text) w = record w { manager = on_data e id stream text w.manager }
step e (fails id msg) w = record w { manager = on_error e id msg w.manager }
step e (exits id handle code signal) w = record {
  manager = on_exit e id code signal w.manager;
  waits = map (settle_exited handle) w.waits;
}
step e (term_timer n) w = fire_term n (get_elem? w.waits n) w
step e (kill_timer n) w = fire_kill n (get_elem? w.waits n) w

-- A run: each event with the surroundings that it reads.
unfoldable pub run : List (Env × Event) → World → World
run [] w = w
run ((e, ev) ∷ rest) w = run rest (step e ev w)
