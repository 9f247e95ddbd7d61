-- ===== src/World/Timers.antt =====
-- Which child the timers of a `stop` signal (tools/llama-dspark-test-ui/lib/process-manager.ts).
mod Tests
use dspark_edge.Base.{
  ℕ, ◌≡◌, ◌≢◌, refl, sym, subst, ap, ◌∙◌, Bool, true, false, ◌&&◌, not, Option, none, some, List,
  [], ◌∷◌, ◌++◌, arith, ◌==◌, ==_iff, Bool-cases, inl, inr, if◌then◌else◌, get_elem?, set, map, All,
  All-append, All-map, All-set, All-get_elem?, map-All,
}
use dspark_edge.Base.Text.{Text, lit}
use dspark_edge.Types.{ProcId, server, daemon, running, system, same_proc, same_proc_iff}
use dspark_edge.Process.{
  Env, Manager, Child, to_child, kill_pid, proc, send, has_child, new, blank_proc, blank_status,
}
use dspark_edge.Process.Lifecycle.{Core, core, core-push_log}
use dspark_edge.World.{
  Wait, World, initial, stop_with, stop, settle, settle_exited, term_child, fire_term, fire_kill,
  Event, starts, stops, output, fails, exits, term_timer, kill_timer, step, run,
}
use dspark_edge.World.Life.{
  IsUp, Spares, core-send, core-fire_term, core-fire_kill, step-undisturbed,
}
use dspark_edge.World.Aims.{Holds, Aimed, Waits, step-Aimed}
use dspark_edge.World.Shapes.{Shape, Fair, step-Shape}

initial-Shape : (id : ProcId) → Shape (core initial.manager id)
unfolding core initial new blank_proc blank_status
initial-Shape server = λ held known. absurd (cc)
initial-Shape daemon = λ held known. absurd (cc)

-- What the two timers of a wait send, to the child that the process has then and to the pid read.
pub fire_term-sent :
    (n : ℕ) (t : Wait) (c : Child) (w : World)
    → get_elem? w.waits n ≡ some t
    → t.settled ≡ false
    → (core w.manager t.proc).child ≡ some c
    → (fire_term n (get_elem? w.waits n) w).manager.sent
      ≡ (if t.armed then w.manager.sent ++ to_child c (lit "SIGTERM") ∷ [] else w.manager.sent)
unfolding fire_term core
fire_term-sent n t c w at s held = elim (Bool-cases t.armed) [
  | inl b ↦ rw (at, b, s, held) refl
  | inr b ↦ rw (at, b) refl
]

fire_kill-sent :
    (n : ℕ) (t : Wait) (w : World)
    → get_elem? w.waits n ≡ some t
    → t.settled ≡ false
    → (fire_kill n (get_elem? w.waits n) w).manager.sent
      ≡ (if t.pid == 0 then w.manager.sent else w.manager.sent ++ kill_pid t.pid ∷ [])
unfolding fire_kill
fire_kill-sent n t w at s = elim (Bool-cases (t.pid == 0)) [
  | inl b ↦ rw (at, b, s) refl
  | inr b ↦ rw (at, b, s) refl
]

module _ (id : ProcId) where
  -- Through a run, each event is fair to the process as it then is.
  abbrev pub Faithful : List (Env × Event) → World → Type 0
  Faithful [] w = Unit
  Faithful ((e, ev) ∷ rest) w = Fair id ev (core w.manager id) × Faithful rest (step e ev w)

  run-Aimed :
      (evs : List (Env × Event)) (w : World)
      → Faithful evs w
      → Shape (core w.manager id)
      → Waits id w w
      → Waits id (run evs w) (run evs w)
  unfolding run
  run-Aimed [] w f v h = h
  run-Aimed ((e, ev) ∷ rest) w f v h =
      run-Aimed rest (step e ev w) f.1 (step-Shape id e ev w f.0 v) (step-Aimed id e ev w f.0 v h)

  -- As long as the child of a process reports no error, and the exits that are heard of are those of
  -- the children that the manager holds, a `stop` that waits signals only the child that it was
  -- called for: after any such run from the start, its process still has that child and that pid,
  -- its first timer sends SIGTERM to that child if it has not fired, and its second sends SIGKILL to
  -- that pid, unless it is 0; nothing else is sent.
  pub timers-own :
      (evs : List (Env × Event)) (e : Env) (n : ℕ) (t : Wait)
      → Faithful evs initial
      → get_elem? (run evs initial).waits n ≡ some t
      → t.proc ≡ id
      → t.settled ≡ false
      → let w = run evs initial in
        Holds (core w.manager id) t
        × ((step e (term_timer n) w).manager.sent ≡ (
            if t.armed
            then w.manager.sent ++ to_child t.child (lit "SIGTERM") ∷ []
            else w.manager.sent))
        × ((step e (kill_timer n) w).manager.sent
            ≡ (if t.pid == 0 then w.manager.sent else w.manager.sent ++ kill_pid t.pid ∷ []))
  unfolding step
  timers-own evs e n t f at p s =
      let w = run evs initial in
      let aimed : Holds (core w.manager id) t =
        All-get_elem? (Aimed id (core w.manager id)) w.waits n t at
          (run-Aimed evs initial f (initial-Shape id) (unfold initial in tt)) p s in
      (aimed, fire_term-sent n t t.child w at s (rw p aimed.0), fire_kill-sent n t w at s)
