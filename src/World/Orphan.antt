-- ===== src/World/Orphan.antt =====
-- The exit of an earlier child after a second start
-- (tools/llama-dspark-test-ui/lib/process-manager.ts).
use dspark_edge.Base.{ℕ, ◌≡◌, refl, ap, ◌∙◌, true, false, Option, none, some, List, [], ◌∷◌, arith}
use dspark_edge.Base.Text.{Text}
use dspark_edge.Types.{ProcId, running, error}
use dspark_edge.Process.{Env, Manager, Child, child, proc, busy, start, on_error}
use dspark_edge.Process.Lifecycle.{
  core, started, core-on_exit, core-on_error, same_proc_refl, start_ok,
}
use dspark_edge.Process.Starts.{start_ready}
use dspark_edge.World.{World, fails, starts, exits, step, run}

error_idle :
    (m : Manager) (id : ProcId) → (core m id).status.state ≡ error → busy (proc m id) ≡ false
unfolding core
error_idle m id h = ground (arith, h)

module _ (e : Env) (id : ProcId) where
  pub on_error-idle : (msg : Text) (m : Manager) → busy (proc (on_error e id msg m) id) ≡ false
  on_error-idle msg m =
      error_idle (on_error e id msg m) id (rw (core-on_error, same_proc_refl) refl)

  pub start-started :
      (bin : Text) (args : List Text) (m : Manager) (c : Child)
      → busy (proc m id) ≡ false
      → e.exists bin ≡ true
      → e.spawn bin args ≡ child c
      → core (start e id bin args m).0 id ≡ started e bin args c (core m id)
  start-started bin args m c idle there spawned =
      let (s, r) = start_ready e id bin args m c idle there spawned in
      let (c', spawned', idle', there', same, after) = start_ok e id id bin args m s r in
      let one : c' ≡ c = cc in
      after ∙ rw same_proc_refl (ap (λ x. started e bin args x (core m id)) one)

  -- After an error event of its child, a process can be started anew while the first child is still
  -- alive. It then runs with the second child, and when the first one exits, the manager has no
  -- child and no pid for the process, though the second child never exited.
  pub late_exit_forgets :
      (bin : Text) (args : List Text) (msg : Text) (c c' : Child) (code : Option ℕ)
      (signal : Option Text) (w : World)
      → (core w.manager id).child ≡ some c
      → e.exists bin ≡ true
      → e.spawn bin args ≡ child c'
      → let w' = run ((e, fails id msg) ∷ (e, starts id bin args) ∷ []) w in
        let w'' = step e (exits id c.handle code signal) w' in
        ((core w'.manager id).child ≡ some c')
        × ((core w'.manager id).status.state ≡ running)
        × ((core w''.manager id).child ≡ none)
        × ((core w''.manager id).status.pid ≡ none)
  unfolding run step
  late_exit_forgets bin args msg c c' code signal w held there spawned =
      let restarted =
        start-started bin args (on_error e id msg w.manager) c' (on_error-idle msg w.manager) there
          spawned in
      (
        rw restarted refl,
        rw restarted refl,
        rw (core-on_exit, same_proc_refl) refl,
        rw (core-on_exit, same_proc_refl) refl,
      )
