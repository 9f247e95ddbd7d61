-- ===== src/World/Escalate.antt =====
-- The signals of a `stop` whose child does not end (tools/llama-dspark-test-ui/lib/process-manager.ts).
use dspark_edge.Base.{
  ℕ, ◌≡◌, refl, ap, ◌∙◌, true, false, some, List, [], ◌∷◌, ◌++◌, append_assoc, ◌==◌, ==_iff,
  get_elem?, get_elem?-set, set, length,
}
use dspark_edge.Base.Text.{Text, lit}
use dspark_edge.Types.{ProcId, server, daemon, Stream, system}
use dspark_edge.Process.{
  Env, Manager, Child, Sent, to_child, kill_pid, proc, status_of, send, push_log,
}
use dspark_edge.Process.Lifecycle.{core, core-push_log}
use dspark_edge.Process.Signals.{sent-push_log}
use dspark_edge.World.{
  Wait, World, stop_wait, stop_with, stop, settle, fire_term, fire_kill, stops, term_timer,
  kill_timer, step, run,
}
use dspark_edge.World.Stops.{IsSettledAt}

child-push_log :
    (e : Env) (id : ProcId) (stream : Stream) (text : Text) (m : Manager)
    → (proc (push_log e id stream text m) id).child ≡ (proc m id).child
unfolding core
child-push_log e id stream text m = ap (λ k. k.child) (core-push_log e id id stream text m)

pub get_elem?-length {ℓ} :
    {A : Type ℓ} (xs : List A) (x : A) → get_elem? (xs ++ x ∷ []) (length xs) ≡ some x
get_elem?-length [] x = refl
get_elem?-length (y ∷ xs) x = get_elem?-length xs x

child-send : (s : Sent) (m : Manager) (id : ProcId) → (proc (send s m) id).child ≡ (proc m id).child
child-send s m server = refl
child-send s m daemon = refl

module _ (e : Env) (id : ProcId) (c : Child) (pid : ℕ) (w : World) where
  abbrev pub waiting : Wait
  waiting = record { proc = id; child = c; pid = pid; armed = true; settled = false }

  abbrev pub stopping : World
  stopping = stop_wait e id c pid w

  -- The manager that the first timer leaves.
  abbrev termed : Manager
  termed = send (to_child c (lit "SIGTERM")) stopping.manager

  abbrev waits_termed : List Wait
  waits_termed = set stopping.waits (length w.waits) (record waiting { armed = false })

  pub sent-stopping : stopping.manager.sent ≡ w.manager.sent ++ to_child c (lit "SIGINT") ∷ []
  sent-stopping = rw (sent-push_log e id system (lit "stopping…") w.manager) refl

  child-stopping : (proc w.manager id).child ≡ some c → (proc stopping.manager id).child ≡ some c
  child-stopping h =
      child-send (to_child c (lit "SIGINT")) (push_log e id system (lit "stopping…") w.manager) id
      ∙ (child-push_log e id system (lit "stopping…") w.manager ∙ h)

  pub stop-stopping :
      (proc w.manager id).child ≡ some c
      → (status_of w.manager id).pid ≡ some pid
      → stop e id w ≡ stopping
  unfolding stop stop_with
  stop-stopping h k = rw (h, k) refl

  fire_term-stopping :
      (proc w.manager id).child ≡ some c
      → fire_term (length w.waits) (get_elem? stopping.waits (length w.waits)) stopping
        ≡ record { manager = termed; waits = waits_termed }
  unfolding fire_term
  fire_term-stopping h = rw (get_elem?-length w.waits waiting, child-stopping h) refl

  abbrev disarmed : Wait
  disarmed = record waiting { armed = false }

  waits_termed-at : get_elem? waits_termed (length w.waits) ≡ some disarmed
  waits_termed-at =
      rw
        (
          get_elem?-set stopping.waits (length w.waits) (length w.waits) disarmed waiting
              (get_elem?-length w.waits waiting),
          (==_iff (length w.waits) (length w.waits)).1 refl,
        )
        refl

  -- The world that the second timer leaves.
  abbrev killed : World
  killed = record {
    manager = send (kill_pid pid) termed;
    waits = set waits_termed (length w.waits) (settle disarmed);
  }

  fire_kill-termed :
      pid == 0 ≡ false
      → let w' : World = record { manager = termed; waits = waits_termed } in
        fire_kill (length w.waits) (get_elem? waits_termed (length w.waits)) w' ≡ killed
  unfolding fire_kill
  fire_kill-termed z = rw (waits_termed-at, z) refl

  run-killed :
      (proc w.manager id).child ≡ some c
      → (status_of w.manager id).pid ≡ some pid
      → pid == 0 ≡ false
      → run
          ((e, stops id) ∷ (e, term_timer (length w.waits)) ∷ (e, kill_timer (length w.waits)) ∷ [])
          w
        ≡ killed
  unfolding run step
  run-killed h k z = rw (stop-stopping h k, fire_term-stopping h) (fire_kill-termed z)

  sent-killed :
      killed.manager.sent
      ≡ w.manager.sent ++ to_child c (lit "SIGINT") ∷ to_child c (lit "SIGTERM") ∷ kill_pid pid ∷ []
  sent-killed =
      ap (λ ss. (ss ++ to_child c (lit "SIGTERM") ∷ []) ++ kill_pid pid ∷ []) sent-stopping
      ∙ (ap (λ ss. ss ++ kill_pid pid ∷ [])
            (append_assoc w.manager.sent (to_child c (lit "SIGINT") ∷ [])
              (to_child c (lit "SIGTERM") ∷ []))
          ∙ append_assoc w.manager.sent
              (to_child c (lit "SIGINT") ∷ to_child c (lit "SIGTERM") ∷ []) (kill_pid pid ∷ []))

  -- When a process that has a child and a pid other than 0 is asked to stop, and both timers fire
  -- with nothing before them, SIGINT, SIGTERM and SIGKILL are sent to it in this order, nothing else
  -- is sent, and the call is resolved.
  pub stop_escalates :
      (proc w.manager id).child ≡ some c
      → (status_of w.manager id).pid ≡ some pid
      → pid == 0 ≡ false
      → let w' =
          run
            ((e, stops id)
              ∷ (e, term_timer (length w.waits))
              ∷ (e, kill_timer (length w.waits))
              ∷ [])
            w in
        (w'.manager.sent
          ≡ w.manager.sent
            ++ to_child c (lit "SIGINT") ∷ to_child c (lit "SIGTERM") ∷ kill_pid pid ∷ [])
        × IsSettledAt (length w.waits) w'.waits
  stop_escalates h k z = rw (run-killed h k z) (
    sent-killed,
    (
      settle disarmed,
      rw
          (
            get_elem?-set waits_termed (length w.waits) (length w.waits) (settle disarmed) disarmed
                waits_termed-at,
            (==_iff (length w.waits) (length w.waits)).1 refl,
          )
          refl,
      refl,
    ),
  )
