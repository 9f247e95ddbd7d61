-- ===== src/World/Astray.antt =====
-- The signal of a `stop` after a second start (tools/llama-dspark-test-ui/lib/process-manager.ts).
mod Tests
use dspark_edge.Base.{
  ℕ, ◌≡◌, refl, ap, ◌∙◌, true, false, some, List, [], ◌∷◌, ◌++◌, length, get_elem?,
}
use dspark_edge.Base.Text.{Text, lit}
use dspark_edge.Types.{ProcId}
use dspark_edge.Process.{Env, Manager, Child, child, to_child, proc, status_of, start, on_error}
use dspark_edge.Process.Lifecycle.{core, started}
use dspark_edge.Process.Signals.{sent-on_error, sent-start}
use dspark_edge.World.{World, stop, fire_term, stops, fails, starts, term_timer, step, run}
use dspark_edge.World.Escalate.{waiting, stopping, stop-stopping, sent-stopping, get_elem?-length}
use dspark_edge.World.Orphan.{on_error-idle, start-started}
use dspark_edge.World.Timers.{fire_term-sent}

module _ (e : Env) (id : ProcId) (bin : Text) (args : List Text) (msg : Text) (c c' : Child)
    (pid : ℕ) (w : World) where
  -- The manager after the stop, the error and the second start.
  abbrev restarted : Manager
  restarted = (start e id bin args (on_error e id msg (stopping e id c pid w).manager)).0

  abbrev astray : World
  astray = record (stopping e id c pid w) { manager = restarted }

  sent-restarted : restarted.sent ≡ w.manager.sent ++ to_child c (lit "SIGINT") ∷ []
  sent-restarted =
      sent-start e id bin args _ ∙ (sent-on_error e id msg _ ∙ sent-stopping e id c pid w)

  child-restarted :
      e.exists bin ≡ true → e.spawn bin args ≡ child c' → (core restarted id).child ≡ some c'
  child-restarted there spawned =
      ap (λ k. k.child)
        (start-started e id bin args (on_error e id msg (stopping e id c pid w).manager) c'
          (on_error-idle e id msg (stopping e id c pid w).manager) there spawned)

  run-astray :
      (proc w.manager id).child ≡ some c
      → (status_of w.manager id).pid ≡ some pid
      → run ((e, stops id) ∷ (e, fails id msg) ∷ (e, starts id bin args) ∷ []) w ≡ astray
  unfolding run step
  run-astray h k = rw (stop-stopping e id c pid w h k) refl

  -- When the child of a process that was asked to stop reports an error, and the process is started
  -- anew before the first timer of the `stop`, that timer sends SIGTERM to the new child, which
  -- nobody asked to stop; the first child has got SIGINT and nothing else.
  pub late_term_hits :
      (proc w.manager id).child ≡ some c
      → (status_of w.manager id).pid ≡ some pid
      → e.exists bin ≡ true
      → e.spawn bin args ≡ child c'
      → let w' = run ((e, stops id) ∷ (e, fails id msg) ∷ (e, starts id bin args) ∷ []) w in
        ((core w'.manager id).child ≡ some c')
        × (w'.manager.sent ≡ w.manager.sent ++ to_child c (lit "SIGINT") ∷ [])
        × ((step e (term_timer (length w.waits)) w').manager.sent
            ≡ w'.manager.sent ++ to_child c' (lit "SIGTERM") ∷ [])
  unfolding step
  late_term_hits h k there spawned =
      let held = child-restarted there spawned in
      rw (run-astray h k) (
        held,
        sent-restarted,
        fire_term-sent (length w.waits) (waiting e id c pid w) c' astray
            (get_elem?-length w.waits (waiting e id c pid w)) refl held,
      )
