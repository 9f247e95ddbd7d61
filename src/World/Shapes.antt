-- ===== src/World/Shapes.antt =====
-- The shape that a process keeps as long as its child reports no error
-- (tools/llama-dspark-test-ui/lib/process-manager.ts).
use dspark_edge.Base.{
  ℕ, ◌≡◌, ◌⊎◌, ◌≢◌, refl, sym, subst, true, false, Option, none, some, List, arith, Bool-cases, inl,
  inr, get_elem?,
}
use dspark_edge.Base.Text.{Text}
use dspark_edge.Types.{ProcId, ProcStatus, running, same_proc, same_proc_iff}
use dspark_edge.Process.{
  Env, Manager, Child, Outcome, returned, thrown, proc, has_child, busy, start, on_exit,
}
use dspark_edge.Process.Lifecycle.{
  Core, core, core-push_log, core-update_status, core-on_exit, core-on_error, core-on_data,
  same_proc_refl, Refusal, running_already, no_binary, no_spawn, start_ok, start_thrown,
}
use dspark_edge.Process.Starts.{core-start_other}
use dspark_edge.World.{
  World, stop_idle, stop_with, stop, Event, starts, stops, output, fails, exits, term_timer,
  kill_timer, step,
}
use dspark_edge.World.Life.{core-send, core-fire_term, core-fire_kill}

-- A process with a child and a pid is running.
abbrev pub Shape : Core → Type 0
Shape k = has_child k.child ≡ true → k.status.pid ≢ none → k.status.state ≡ running

Outcome-cases :
    (o : Outcome) → ((s : ProcStatus) × (o ≡ returned s)) ⊎ ((msg : Text) × (o ≡ thrown msg))
Outcome-cases (returned s) = inl (s, refl)
Outcome-cases (thrown msg) = inr (msg, refl)

-- An idle process of this shape has no child or no pid.
idle_unheld :
    (m : Manager) (id : ProcId)
    → busy (proc m id) ≡ false
    → has_child (core m id).child ≡ true
    → (core m id).status.pid ≢ none
    → Shape (core m id)
    → ⊥
unfolding core
idle_unheld m id b held known v = let up = v held known in ground arith

module _ (e : Env) (id : ProcId) where
  Refusal-Shape :
      (bin : Text) (args : List Text) (m : Manager) (msg : Text)
      → Refusal e id bin args m msg
      → Shape (core m id)
      → Shape (core (start e id bin args m).0 id)
  Refusal-Shape bin args m msg (running_already b h same) v = rw same v
  Refusal-Shape bin args m msg (no_binary b x h k) v =
      rw k (λ held known. absurd (idle_unheld m id b held known v))
  Refusal-Shape bin args m msg (no_spawn b x h k) v = rw k (λ held known. absurd (known refl))

  start-Shape :
      (bin : Text) (args : List Text) (m : Manager)
      → Shape (core m id)
      → Shape (core (start e id bin args m).0 id)
  start-Shape bin args m v = elim (Outcome-cases (start e id bin args m).1) [
    | inl (s, r) ↦
        let (c, spawned, idle, there, same, after) = start_ok e id id bin args m s r in
        rw (after, same_proc_refl) (λ _ _. refl)
    | inr (msg, r) ↦ Refusal-Shape bin args m msg (start_thrown e id bin args m msg r) v
  ]

-- What the surroundings may do to a process that is in this state: its child reports no error, and
-- an exit that is heard of is that of the child that the manager holds.
abbrev pub Fair : ProcId → Event → Core → Type 0
Fair id (fails j msg) k = same_proc j id ≡ false
Fair id (exits j handle code signal) k =
    (same_proc j id ≡ false) ⊎ ((c : Child) × (k.child ≡ some c) × (c.handle ≡ handle))
Fair id _ k = Unit

module _ (id : ProcId) where
  starts-Shape :
      (e : Env) (j : ProcId) (bin : Text) (args : List Text) (m : Manager)
      → Shape (core m id)
      → Shape (core (start e j bin args m).0 id)
  starts-Shape e j bin args m v = elim (Bool-cases (same_proc j id)) [
    | inl same ↦
        subst (λ i. Shape (core (start e i bin args m).0 id)) (sym (same_proc_iff j id same))
          (start-Shape e id bin args m v)
    | inr other ↦ rw (core-start_other, other) v
  ]

  stop_idle-Shape :
      (j : ProcId) (m : Manager)
      → ((core m j).child ≡ none) ⊎ ((core m j).status.pid ≡ none)
      → Shape (core m id)
      → Shape (core (stop_idle j m) id)
  stop_idle-Shape j m h v = elim (Bool-cases (same_proc j id)) [
    | inl same ↦
        let h' : ((core m id).child ≡ none) ⊎ ((core m id).status.pid ≡ none) =
          rw (← same_proc_iff j id same) h in
        rw (core-update_status, same) (λ held known. ground (arith, h', held, known))
    | inr other ↦ rw (core-update_status, other) v
  ]

  stop_with-Shape :
      (e : Env) (j : ProcId) (c : Option Child) (pid : Option ℕ) (w : World)
      → (core w.manager j).child ≡ c
      → (core w.manager j).status.pid ≡ pid
      → Shape (core w.manager id)
      → Shape (core (stop_with e j c pid w).manager id)
  unfolding stop_with
  stop_with-Shape e j none pid w h k v = stop_idle-Shape j w.manager (inl h) v
  stop_with-Shape e j (some c) none w h k v = stop_idle-Shape j w.manager (inr k) v
  stop_with-Shape e j (some c) (some pid) w h k v = rw (core-send, core-push_log) v

  stop-Shape :
      (e : Env) (j : ProcId) (w : World)
      → Shape (core w.manager id)
      → Shape (core (stop e j w).manager id)
  unfolding stop core
  stop-Shape e j w v = stop_with-Shape e j _ _ w refl refl v

  on_exit-Shape :
      (e : Env) (j : ProcId) (code : Option ℕ) (signal : Option Text) (m : Manager)
      → Shape (core m id)
      → Shape (core (on_exit e j code signal m) id)
  on_exit-Shape e j code signal m v = elim (Bool-cases (same_proc j id)) [
    | inl same ↦ rw (core-on_exit, same) (λ held known. absurd (cc))
    | inr other ↦ rw (core-on_exit, other) v
  ]

  pub step-Shape :
      (e : Env) (ev : Event) (w : World)
      → Fair id ev (core w.manager id)
      → Shape (core w.manager id)
      → Shape (core (step e ev w).manager id)
  unfolding step
  step-Shape e (starts j bin args) w h v = starts-Shape e j bin args w.manager v
  step-Shape e (stops j) w h v = stop-Shape e j w v
  step-Shape e (output j stream text) w h v = rw (core-on_data e j id stream text w.manager) v
  step-Shape e (fails j msg) w h v = rw (core-on_error, h) v
  step-Shape e (exits j handle code signal) w h v = on_exit-Shape e j code signal w.manager v
  step-Shape e (term_timer n) w h v = rw (core-fire_term n (get_elem? w.waits n) w id) v
  step-Shape e (kill_timer n) w h v = rw (core-fire_kill n (get_elem? w.waits n) w id) v
