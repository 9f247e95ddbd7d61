-- ===== src/Process/Life.antt =====
-- The life of one process as a step relation, and the calls and handlers of the manager as its steps
-- (tools/llama-dspark-test-ui/lib/process-manager.ts).
use dspark_edge.Base.{
  ℕ, ◌≡◌, ◌⊎◌, refl, subst, true, false, ◌&&◌, Option, none, some, List, arith, Bool-cases, inl,
  inr,
}
use dspark_edge.Base.Text.{Text}
use dspark_edge.Types.{ProcId, stopped, running, exited, error, same_proc, same_proc_iff}
use dspark_edge.Process.{
  Env, Manager, Spawned, child, refused, proc, has_child, is_running, busy, not_found, command_line,
  launch, boot, start, start_cases, on_error, exit_state, on_exit,
}
use dspark_edge.Process.Lifecycle.{
  Core, core, core-boot, core-missing, core-launch, core-on_exit, core-on_error,
}

-- What one event may make of a process.
pub data Moves (k k' : Core) : Type 0 where
  stays : k' ≡ k → Moves k k'
  launches :
      has_child k.child && is_running k.status.state ≡ false
      → has_child k'.child ≡ true
      → k'.status.state ≡ running
      → k'.status.exit_code ≡ none
      → k'.status.error ≡ none
      → Moves k k'
  breaks :
      (msg : Text)
      → k'.child ≡ k.child
      → k'.status.state ≡ error
      → k'.status.error ≡ some msg
      → Moves k k'
  ends :
      (now : ℕ)
      → k'.child ≡ none
      → k'.status.pid ≡ none
      → (k'.status.state ≡ exited) ⊎ (k'.status.state ≡ error)
      → k'.status.exited_at ≡ some now
      → Moves k k'
  idles :
      (k.child ≡ none) ⊎ (k.status.pid ≡ none)
      → k' ≡ record k { status = record k.status { state = stopped } }
      → Moves k k'

exit_state_cases :
    (code : Option ℕ) (signal : Option Text)
    → (exit_state code signal ≡ exited) ⊎ (exit_state code signal ≡ error)
unfolding exit_state
exit_state_cases code signal = ground arith

core-busy :
    (m : Manager) (id j : ProcId)
    → busy (proc m id) ≡ false
    → same_proc id j ≡ true
    → has_child (core m j).child && is_running (core m j).status.state ≡ false
unfolding core
core-busy m id j idle b = subst (λ i. busy (proc m i) ≡ false) (same_proc_iff id j b) idle

launch-Moves :
    (e : Env) (id j : ProcId) (command : Text) (r : Spawned) (m : Manager)
    → busy (proc m id) ≡ false
    → same_proc id j ≡ true
    → Moves (core m j) (core (launch e id r (boot e id command m)).0 j)
launch-Moves e id j command (child c) m idle b =
    let now = core-launch e id j (child c) (boot e id command m) in
    let before = core-boot e id j command m in
    launches (core-busy m id j idle b) (rw (now, b) refl) (rw (now, b) refl)
      (rw (now, before, b) refl) (rw (now, before, b) refl)
launch-Moves e id j command (refused msg) m idle b =
    let now = core-launch e id j (refused msg) (boot e id command m) in
    let before = core-boot e id j command m in
    breaks msg (rw (now, before, b) refl) (rw (now, b) refl) (rw (now, b) refl)

pub start-Moves :
    (e : Env) (id j : ProcId) (bin : Text) (args : List Text) (m : Manager)
    → Moves (core m j) (core (start e id bin args m).0 j)
start-Moves e id j bin args m =
    start_cases e id bin args m (λ r. Moves (core m j) (core r.0 j)) (λ _. stays refl)
      (λ idle _. elim (Bool-cases (same_proc id j)) [
        | inl b ↦ launch-Moves e id j (command_line bin args) (e.spawn bin args) m idle b
        | inr b ↦ stays (rw (core-launch, b, core-boot, b) refl)
      ])
      (λ _ _. elim (Bool-cases (same_proc id j)) [
        | inl b ↦
            breaks (not_found bin) (rw (core-missing, b) refl) (rw (core-missing, b) refl)
              (rw (core-missing, b) refl)
        | inr b ↦ stays (rw (core-missing, b) refl)
      ])

pub on_error-Moves :
    (e : Env) (id j : ProcId) (msg : Text) (m : Manager)
    → Moves (core m j) (core (on_error e id msg m) j)
on_error-Moves e id j msg m = elim (Bool-cases (same_proc id j)) [
  | inl b ↦
      breaks msg (rw (core-on_error, b) refl) (rw (core-on_error, b) refl)
        (rw (core-on_error, b) refl)
  | inr b ↦ stays (rw (core-on_error, b) refl)
]

pub on_exit-Moves :
    (e : Env) (id j : ProcId) (code : Option ℕ) (signal : Option Text) (m : Manager)
    → Moves (core m j) (core (on_exit e id code signal m) j)
on_exit-Moves e id j code signal m = elim (Bool-cases (same_proc id j)) [
  | inl b ↦
      ends e.now (rw (core-on_exit, b) refl) (rw (core-on_exit, b) refl)
        (rw (core-on_exit, b) (exit_state_cases code signal)) (rw (core-on_exit, b) refl)
  | inr b ↦ stays (rw (core-on_exit, b) refl)
]
