-- ===== src/Process/Starts.antt =====
-- When `start` goes well, and what it leaves alone
-- (tools/llama-dspark-test-ui/lib/process-manager.ts).
use dspark_edge.Base.{◌≡◌, refl, ap, Bool, ◌&&◌, true, false, List}
use dspark_edge.Base.Text.{Text}
use dspark_edge.Types.{ProcId, ProcStatus, same_proc}
use dspark_edge.Process.{
  Env, Manager, Child, child, returned, proc, busy, has_child, is_running, launch, start,
  start_cases, start_there,
}
use dspark_edge.Process.Lifecycle.{Core, core, core-launch, core-boot, core-missing}

-- An idle process whose binary is there, and whose spawn gives a child, is started.
pub start_ready :
    (e : Env) (id : ProcId) (bin : Text) (args : List Text) (m : Manager) (c : Child)
    → busy (proc m id) ≡ false
    → e.exists bin ≡ true
    → e.spawn bin args ≡ child c
    → (s : ProcStatus) × ((start e id bin args m).1 ≡ returned s)
unfolding launch
start_ready e id bin args m c idle there spawned = rw (start_there, idle, there, spawned) (_, refl)

-- A start of one process leaves the other as it was, also when it throws.
pub core-start_other :
    (e : Env) (id j : ProcId) (bin : Text) (args : List Text) (m : Manager)
    → same_proc id j ≡ false
    → core (start e id bin args m).0 j ≡ core m j
core-start_other e id j bin args m other =
    start_cases e id bin args m (λ r. core r.0 j ≡ core m j) (λ _. refl)
      (λ _ _. rw (core-launch, core-boot, other) refl) (λ _ _. rw (core-missing, other) refl)

abbrev pub core_busy : Core → Bool
core_busy k = has_child k.child && is_running k.status.state

pub busy-start_other :
    (e : Env) (id j : ProcId) (bin : Text) (args : List Text) (m : Manager)
    → same_proc id j ≡ false
    → busy (proc (start e id bin args m).0 j) ≡ busy (proc m j)
unfolding core
busy-start_other e id j bin args m other = ap core_busy (core-start_other e id j bin args m other)
