-- ===== src/Panels/Cards/Laws.antt =====
-- What a card says of a process that crashed.
use dspark_edge.Base.{ℕ, ◌≡◌, ◌≢◌, ◌∙◌, refl, true, false, Option, none, List, All}
use dspark_edge.Base.Text.{Text}
use dspark_edge.Types.{ProcId, error}
use dspark_edge.Process.{Env, Child, child, proc, busy, exit_state, on_exit}
use dspark_edge.Process.Lifecycle.{Core, core, core-on_exit, same_proc_refl, started}
use dspark_edge.World.Orphan.{start-started}
use dspark_edge.World.{World, Event, starts, exits, step, run}
use dspark_edge.World.Life.{Spares, run-undisturbed, started-IsUp}
use dspark_edge.Panels.Cards.{card_footer}

footer_of_core :
    (k : Core) (now : Text)
    → k.status.state ≡ error
    → k.status.error ≡ none
    → card_footer k.status now ≡ none
unfolding card_footer
footer_of_core k now h e = rw (h, e) refl

-- A process that is started with a child that has a pid, and whose child later ends with a code or
-- signal that counts as an error, without having reported an error and whatever else has happened
-- by then, is shown in the state "error", and the code and the signal of its exit are noted, but the
-- footer of its card is empty.
pub crash_leaves_footer_empty :
    (e e' : Env) (id : ProcId) (bin : Text) (args : List Text) (w : World) (c : Child)
    (evs : List (Env × Event)) (code : Option ℕ) (signal : Option Text) (elapsed : Text)
    → busy (proc w.manager id) ≡ false
    → e.exists bin ≡ true
    → e.spawn bin args ≡ child c
    → c.pid ≢ none
    → All (λ x. Spares id x.1) evs
    → exit_state code signal ≡ error
    → let w' = step e' (exits id c.handle code signal) (run evs (step e (starts id bin args) w)) in
      let k = core w'.manager id in
      (k.status.state ≡ error)
      × (k.status.exit_code ≡ code)
      × (k.status.signal ≡ signal)
      × (card_footer k.status elapsed ≡ none)
unfolding step
crash_leaves_footer_empty e e' id bin args w c evs code signal elapsed idle there spawned known
      spared crash =
    let w1 = step e (starts id bin args) w in
    let begun : core w1.manager id ≡ started e bin args c (core w.manager id) =
      start-started e id bin args w.manager c idle there spawned in
    let stays =
      run-undisturbed id evs w1 spared
        (rw begun (started-IsUp e bin args c (core w.manager id) known))
      ∙ begun in
    let k = core (on_exit e' id code signal (run evs w1).manager) id in
    let bad : k.status.state ≡ error = rw (core-on_exit, same_proc_refl) crash in
    let quiet : k.status.error ≡ none = rw (core-on_exit, same_proc_refl, stays) refl in
    (
      bad,
      rw (core-on_exit, same_proc_refl) refl,
      rw (core-on_exit, same_proc_refl) refl,
      footer_of_core k elapsed bad quiet,
    )
