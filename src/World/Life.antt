-- ===== src/World/Life.antt =====
-- Every event of the world follows the life of each process
-- (tools/llama-dspark-test-ui/lib/process-manager.ts).
use dspark_edge.Base.{
  ℕ, ◌≡◌, ◌⊎◌, ◌≢◌, refl, sym, subst, ◌∙◌, true, false, ◌&&◌, not, Option, none, some, List, [],
  ◌∷◌, arith, ◌==◌, Bool-cases, inl, inr, get_elem?, All,
}
use dspark_edge.Base.Text.{Text, lit}
use dspark_edge.Types.{ProcId, running, server, daemon, system, same_proc, same_proc_iff}
use dspark_edge.Process.{
  Env, Manager, Child, Sent, proc, status_of, send, has_child, busy, start, start_busy, on_error,
  on_exit,
}
use dspark_edge.Process.Lifecycle.{
  Core, core, started, core-push_log, core-update_status, core-on_exit, core-on_error, core-on_data,
}
use dspark_edge.Process.Life.{Moves, stays, idles, start-Moves, on_error-Moves, on_exit-Moves}
use dspark_edge.Process.Starts.{core-start_other}
use dspark_edge.World.{
  Wait, World, stop_idle, stop_with, stop, term_child, fire_term, fire_kill, Event, starts, stops,
  output, fails, exits, term_timer, kill_timer, step, run,
}

pub core-send : (s : Sent) (m : Manager) (j : ProcId) → core (send s m) j ≡ core m j
unfolding core
core-send s m server = refl
core-send s m daemon = refl

core-term_child : (o : Option Child) (m : Manager) (j : ProcId) → core (term_child o m) j ≡ core m j
core-term_child none m j = refl
core-term_child (some c) m j = core-send _ m j

pub core-fire_term :
    (n : ℕ) (o : Option Wait) (w : World) (j : ProcId)
    → core (fire_term n o w).manager j ≡ core w.manager j
unfolding fire_term
core-fire_term n none w j = refl
core-fire_term n (some t) w j = elim (Bool-cases (t.armed && not t.settled)) [
  | inl b ↦ rw b (core-term_child (proc w.manager t.proc).child w.manager j)
  | inr b ↦ rw b refl
]

pub core-fire_kill :
    (n : ℕ) (o : Option Wait) (w : World) (j : ProcId)
    → core (fire_kill n o w).manager j ≡ core w.manager j
unfolding fire_kill
core-fire_kill n none w j = refl
core-fire_kill n (some t) w j = elim (Bool-cases t.settled) [
  | inl b ↦ rw b refl
  | inr b ↦ elim (Bool-cases (t.pid == 0)) [
    | inl z ↦ rw (b, z) refl
    | inr z ↦ rw (b, z) (core-send _ w.manager j)
  ]
]

-- A `stop` marks a process stopped only when it has no child or no pid.
stop_idle-Moves :
    (id j : ProcId) (m : Manager)
    → ((core m id).child ≡ none) ⊎ ((core m id).status.pid ≡ none)
    → Moves (core m j) (core (stop_idle id m) j)
stop_idle-Moves id j m h = elim (Bool-cases (same_proc id j)) [
  | inl b ↦ idles (rw (← same_proc_iff id j b) h) (rw (core-update_status, b) refl)
  | inr b ↦ stays (rw (core-update_status, b) refl)
]

stop_with-Moves :
    (e : Env) (id j : ProcId) (c : Option Child) (pid : Option ℕ) (w : World)
    → (core w.manager id).child ≡ c
    → (core w.manager id).status.pid ≡ pid
    → Moves (core w.manager j) (core (stop_with e id c pid w).manager j)
unfolding stop_with
stop_with-Moves e id j none pid w h k = stop_idle-Moves id j w.manager (inl h)
stop_with-Moves e id j (some c) none w h k = stop_idle-Moves id j w.manager (inr k)
stop_with-Moves e id j (some c) (some pid) w h k =
    stays (core-send _ _ j ∙ core-push_log e id j system (lit "stopping…") w.manager)

-- Every call, event of a child and timer moves each process along its life, or leaves its child and
-- its status as they are: it is launched when it is not running already, breaks with a message and
-- its child kept, ends with its child and pid forgotten and the time noted, or is marked stopped
-- when it has no child or no pid.
pub step-Moves :
    (e : Env) (ev : Event) (w : World) (j : ProcId)
    → Moves (core w.manager j) (core (step e ev w).manager j)
unfolding step stop core
step-Moves e (starts id bin args) w j = start-Moves e id j bin args w.manager
step-Moves e (stops id) w j = stop_with-Moves e id j _ _ w refl refl
step-Moves e (output id stream text) w j = stays (core-on_data e id j stream text w.manager)
step-Moves e (fails id msg) w j = on_error-Moves e id j msg w.manager
step-Moves e (exits id handle code signal) w j = on_exit-Moves e id j code signal w.manager
step-Moves e (term_timer n) w j = stays (core-fire_term n (get_elem? w.waits n) w j)
step-Moves e (kill_timer n) w j = stays (core-fire_kill n (get_elem? w.waits n) w j)

-- The events that say nothing of the child of `id`: all but its exit and its error.
abbrev pub Spares : ProcId → Event → Type 0
Spares id (fails j msg) = same_proc j id ≡ false
Spares id (exits j handle code signal) = same_proc j id ≡ false
Spares id _ = Unit

start-undisturbed :
    (e : Env) (id j : ProcId) (bin : Text) (args : List Text) (m : Manager)
    → busy (proc m id) ≡ true
    → core (start e j bin args m).0 id ≡ core m id
start-undisturbed e id j bin args m b = elim (Bool-cases (same_proc j id)) [
  | inl same ↦
      subst (λ i. core (start e i bin args m).0 id ≡ core m id) (sym (same_proc_iff j id same))
        (rw (start_busy, b) refl)
  | inr other ↦ core-start_other e j id bin args m other
]

stop_idle-undisturbed :
    (id j : ProcId) (m : Manager) → same_proc j id ≡ false → core (stop_idle j m) id ≡ core m id
stop_idle-undisturbed id j m other = rw (core-update_status, other) refl

stop_with-undisturbed :
    (e : Env) (id j : ProcId) (c : Option Child) (pid : Option ℕ) (w : World)
    → (same_proc j id ≡ true → (has_child c ≡ true) × (pid ≢ none))
    → core (stop_with e j c pid w).manager id ≡ core w.manager id
unfolding stop_with
stop_with-undisturbed e id j none pid w h = stop_idle-undisturbed id j w.manager (ground (arith, h))
stop_with-undisturbed e id j (some c) none w h =
    stop_idle-undisturbed id j w.manager (ground (arith, h))
stop_with-undisturbed e id j (some c) (some pid) w h =
    core-send _ _ id ∙ core-push_log e j id system (lit "stopping…") w.manager

-- A process that runs: its child is there, and the pid is known.
abbrev pub IsUp : Core → Type 0
IsUp k = (k.status.state ≡ running) × (has_child k.child ≡ true) × (k.status.pid ≢ none)

-- A process that was just started is up, if its child has a pid.
pub started-IsUp :
    (e : Env) (bin : Text) (args : List Text) (c : Child) (k : Core)
    → c.pid ≢ none
    → IsUp (started e bin args c k)
started-IsUp e bin args c k h = (refl, refl, h)

module _ (id : ProcId) where
  up-busy : (m : Manager) → IsUp (core m id) → busy (proc m id) ≡ true
  unfolding core
  up-busy m up = rw (up.0, up.1)

  fails-undisturbed :
      (e : Env) (j : ProcId) (msg : Text) (m : Manager)
      → same_proc j id ≡ false
      → core (on_error e j msg m) id ≡ core m id
  fails-undisturbed e j msg m other = rw (core-on_error, other) refl

  exits-undisturbed :
      (e : Env) (j : ProcId) (code : Option ℕ) (signal : Option Text) (m : Manager)
      → same_proc j id ≡ false
      → core (on_exit e j code signal m) id ≡ core m id
  exits-undisturbed e j code signal m other = rw (core-on_exit, other) refl

  stop-undisturbed :
      (e : Env) (j : ProcId) (w : World)
      → IsUp (core w.manager id)
      → core (stop e j w).manager id ≡ core w.manager id
  unfolding stop core
  stop-undisturbed e j w up = stop_with-undisturbed e id j _ _ w (λ same.
      subst
        (λ i. (has_child (proc w.manager i).child ≡ true) × ((status_of w.manager i).pid ≢ none))
        (sym (same_proc_iff j id same)) (up.1, up.2))

  pub step-undisturbed :
      (e : Env) (ev : Event) (w : World)
      → Spares id ev
      → IsUp (core w.manager id)
      → core (step e ev w).manager id ≡ core w.manager id
  unfolding step
  step-undisturbed e (starts j bin args) w h up =
      start-undisturbed e id j bin args w.manager (up-busy w.manager up)
  step-undisturbed e (stops j) w h up = stop-undisturbed e j w up
  step-undisturbed e (output j stream text) w h up = core-on_data e j id stream text w.manager
  step-undisturbed e (fails j msg) w h up = fails-undisturbed e j msg w.manager h
  step-undisturbed e (exits j handle code signal) w h up =
      exits-undisturbed e j code signal w.manager h
  step-undisturbed e (term_timer n) w h up = core-fire_term n (get_elem? w.waits n) w id
  step-undisturbed e (kill_timer n) w h up = core-fire_kill n (get_elem? w.waits n) w id

  -- A process that runs, with its child and its pid, keeps its child and its status through any run
  -- in which its child neither exits nor reports an error: calls of `start` and `stop` of either
  -- process, output, timers, and whatever becomes of the other process.
  pub run-undisturbed :
      (evs : List (Env × Event)) (w : World)
      → All (λ x. Spares id x.1) evs
      → IsUp (core w.manager id)
      → core (run evs w).manager id ≡ core w.manager id
  unfolding run
  run-undisturbed [] w h up = refl
  run-undisturbed ((e, ev) ∷ rest) w h up =
      let now = step-undisturbed e ev w h.0 up in
      run-undisturbed rest (step e ev w) h.1 (rw now up) ∙ now
