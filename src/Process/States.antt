-- ===== src/Process/States.antt =====
-- Which states a process can be seen in between two calls or events.
use dspark_edge.Base.{ℕ, ◌≡◌, ◌≢◌, true, Option, none, List, arith}
use dspark_edge.Base.Text.{Text}
use dspark_edge.Types.{ProcId, server, daemon, starting, running}
use dspark_edge.Process.{
  Env, Manager, start, start_cases, on_error, exit_state, on_exit, new, blank_proc, blank_status,
  has_child,
}
use dspark_edge.Process.Lifecycle.{
  Core, core, core-boot, core-missing, core-on_exit, core-on_error, core-launch,
}

-- `starting` is never left standing, a running process has its child, and a process without a child
-- has no pid.
pub record IsSettled (c : Core) : Type 0 where
  pub not_starting : c.status.state ≢ starting
  pub has_its_child : c.status.state ≡ running → has_child c.child ≡ true
  pub no_stray_pid : c.child ≡ none → c.status.pid ≡ none

abbrev pub StateInv : Manager → Type 0
StateInv m = (id : ProcId) → IsSettled (core m id)

pub new-StateInv : StateInv new
unfolding core new blank_proc blank_status
new-StateInv server = ground arith
new-StateInv daemon = ground arith

pub on_exit-StateInv :
    (e : Env) (id : ProcId) (code : Option ℕ) (signal : Option Text) (m : Manager)
    → StateInv m
    → StateInv (on_exit e id code signal m)
on_exit-StateInv e id code signal m v j = rw core-on_exit (unfold exit_state in ground (arith, v j))

pub on_error-StateInv :
    (e : Env) (id : ProcId) (msg : Text) (m : Manager) → StateInv m → StateInv (on_error e id msg m)
on_error-StateInv e id msg m v j = rw core-on_error (ground (arith, v j))

pub start-StateInv :
    (e : Env) (id : ProcId) (bin : Text) (args : List Text) (m : Manager)
    → StateInv m
    → StateInv (start e id bin args m).0
start-StateInv e id bin args m v j =
    start_cases e id bin args m (λ r. IsSettled (core r.0 j)) (λ _. v j)
      (λ idle _. rw core-launch (rw core-boot (ground (arith, v j))))
      (λ _ _. rw core-missing (ground (arith, v j)))
