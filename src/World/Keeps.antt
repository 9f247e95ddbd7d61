-- ===== src/World/Keeps.antt =====
-- What the manager keeps under its own operations holds after any run.
use dspark_edge.Base.{
  ℕ, Option, none, some, List, [], ◌∷◌, ◌&&◌, not, ◌==◌, get_elem?, Bool-cases, inl, inr,
}
use dspark_edge.Base.Text.{Text, lit}
use dspark_edge.Types.{ProcId, Stream, system}
use dspark_edge.Process.{
  Env, Manager, Child, Sent, proc, send, push_log, start, on_data, on_error, on_exit,
}
use dspark_edge.World.{
  Wait, World, stop_idle, stop_with, stop, term_child, fire_term, fire_kill, Event, starts, stops,
  output, fails, exits, term_timer, kill_timer, step, run,
}

-- What every step keeps holds after any run.
module _ (P : World → Type 0)
    (keeps : (e : Env) (ev : Event) (w : World) → P w → P (step e ev w)) where
  pub run_induction : (evs : List (Env × Event)) (w : World) → P w → P (run evs w)
  unfolding run
  run_induction [] w h = h
  run_induction ((e, ev) ∷ rest) w h = run_induction rest (step e ev w) (keeps e ev w h)

-- The operations that the steps are made of keep a property of the manager.
pub record Keeps (P : Manager → Type 0) : Type 0 where
  pub sending : (s : Sent) (m : Manager) → P m → P (send s m)
  pub logging :
      (e : Env) (id : ProcId) (stream : Stream) (text : Text) (m : Manager)
      → P m
      → P (push_log e id stream text m)
  pub idling : (id : ProcId) (m : Manager) → P m → P (stop_idle id m)
  pub launching :
      (e : Env) (id : ProcId) (bin : Text) (args : List Text) (m : Manager)
      → P m
      → P (start e id bin args m).0
  pub breaking : (e : Env) (id : ProcId) (msg : Text) (m : Manager) → P m → P (on_error e id msg m)
  pub ending :
      (e : Env) (id : ProcId) (code : Option ℕ) (signal : Option Text) (m : Manager)
      → P m
      → P (on_exit e id code signal m)

module _ (P : Manager → Type 0) (k : Keeps P) where
  stop_with-keeps :
      (e : Env) (id : ProcId) (c : Option Child) (pid : Option ℕ) (w : World)
      → P w.manager
      → P (stop_with e id c pid w).manager
  unfolding stop_with
  stop_with-keeps e id none pid w v = k.idling id w.manager v
  stop_with-keeps e id (some c) none w v = k.idling id w.manager v
  stop_with-keeps e id (some c) (some pid) w v =
      k.sending _ _ (k.logging e id system (lit "stopping…") w.manager v)

  term_child-keeps : (c : Option Child) (m : Manager) → P m → P (term_child c m)
  term_child-keeps none m v = v
  term_child-keeps (some c) m v = k.sending _ m v

  fire_term-keeps :
      (n : ℕ) (o : Option Wait) (w : World) → P w.manager → P (fire_term n o w).manager
  unfolding fire_term
  fire_term-keeps n none w v = v
  fire_term-keeps n (some t) w v = elim (Bool-cases (t.armed && not t.settled)) [
    | inl b ↦ rw b (term_child-keeps (proc w.manager t.proc).child w.manager v)
    | inr b ↦ rw b v
  ]

  fire_kill-keeps :
      (n : ℕ) (o : Option Wait) (w : World) → P w.manager → P (fire_kill n o w).manager
  unfolding fire_kill
  fire_kill-keeps n none w v = v
  fire_kill-keeps n (some t) w v = elim (Bool-cases t.settled) [
    | inl b ↦ rw b v
    | inr b ↦ elim (Bool-cases (t.pid == 0)) [
      | inl z ↦ rw (b, z) v
      | inr z ↦ rw (b, z) (k.sending _ w.manager v)
    ]
  ]

  step-keeps : (e : Env) (ev : Event) (w : World) → P w.manager → P (step e ev w).manager
  unfolding step stop on_data
  step-keeps e (starts id bin args) w v = k.launching e id bin args w.manager v
  step-keeps e (stops id) w v = stop_with-keeps e id _ _ w v
  step-keeps e (output id stream text) w v = k.logging e id stream text w.manager v
  step-keeps e (fails id msg) w v = k.breaking e id msg w.manager v
  step-keeps e (exits id handle code signal) w v = k.ending e id code signal w.manager v
  step-keeps e (term_timer n) w v = fire_term-keeps n (get_elem? w.waits n) w v
  step-keeps e (kill_timer n) w v = fire_kill-keeps n (get_elem? w.waits n) w v

  -- Such a property holds of the manager after any run.
  pub run-keeps : (evs : List (Env × Event)) (w : World) → P w.manager → P (run evs w).manager
  run-keeps = run_induction (λ w. P w.manager) step-keeps
