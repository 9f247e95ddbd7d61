-- ===== src/World/Silent.antt =====
-- The output of the children changes nothing but the logs
-- (tools/llama-dspark-test-ui/lib/process-manager.ts).
use dspark_edge.Base.{ℕ, ◌≡◌, refl, sym, ap, ◌∙◌, Option, List, [], ◌∷◌, All, map}
use dspark_edge.Base.Text.{Text}
use dspark_edge.Types.{ProcId, Stream}
use dspark_edge.Process.{Env, on_data}
use dspark_edge.Process.Lifecycle.{core, core-on_data, core-on_exit}
use dspark_edge.Process.Signals.{sent-push_log, sent-on_exit}
use dspark_edge.World.{
  World, settle_exited, Event, starts, stops, output, fails, exits, term_timer, kill_timer, step,
  run,
}

-- The events that are no output.
abbrev pub silent : List (Env × Event) → List (Env × Event)
silent [] = []
silent ((e, output id stream text) ∷ rest) = silent rest
silent ((e, starts id bin args) ∷ rest) = (e, starts id bin args) ∷ silent rest
silent ((e, stops id) ∷ rest) = (e, stops id) ∷ silent rest
silent ((e, fails id msg) ∷ rest) = (e, fails id msg) ∷ silent rest
silent ((e, exits id handle code signal) ∷ rest) = (e, exits id handle code signal) ∷ silent rest
silent ((e, term_timer n) ∷ rest) = (e, term_timer n) ∷ silent rest
silent ((e, kill_timer n) ∷ rest) = (e, kill_timer n) ∷ silent rest

abbrev pub IsExit : Env × Event → Type 0
IsExit (e, exits id handle code signal) = Unit
IsExit (e, _) = ⊥

-- Two worlds that differ in logs and emissions only.
pub record Alike (w w' : World) : Type 0 where
  pub sent : w.manager.sent ≡ w'.manager.sent
  pub waits : w.waits ≡ w'.waits
  pub cores : (j : ProcId) → core w.manager j ≡ core w'.manager j

pub Alike-refl : (w : World) → Alike w w
Alike-refl w = record { sent = refl; waits = refl; cores = λ j. refl }

output-Alike :
    (e : Env) (id : ProcId) (stream : Stream) (text : Text) (w w' : World)
    → Alike w w'
    → Alike (step e (output id stream text) w) w'
unfolding step on_data
output-Alike e id stream text w w' a = record {
  sent = sent-push_log e id stream text w.manager ∙ a.sent;
  waits = a.waits;
  cores = λ j. core-on_data e id j stream text w.manager ∙ a.cores j;
}

exits-Alike :
    (e : Env) (id : ProcId) (handle : ℕ) (code : Option ℕ) (signal : Option Text) (w w' : World)
    → Alike w w'
    → Alike (step e (exits id handle code signal) w) (step e (exits id handle code signal) w')
unfolding step
exits-Alike e id handle code signal w w' a = record {
  sent =
      sent-on_exit e id code signal w.manager
      ∙ (a.sent ∙ sym (sent-on_exit e id code signal w'.manager));
  waits = ap (map (settle_exited handle)) a.waits;
  cores = λ j.
      rw
        (
          core-on_exit e id j code signal w.manager,
          core-on_exit e id j code signal w'.manager,
          a.cores j,
        )
        refl;
}

-- A run with no events but exits and output leaves the same, the logs aside, as its exits alone.
pub run-Alike :
    (evs : List (Env × Event)) (w w' : World)
    → All IsExit (silent evs)
    → Alike w w'
    → Alike (run evs w) (run (silent evs) w')
unfolding run
run-Alike [] w w' h a = a
run-Alike ((e, output id stream text) ∷ rest) w w' h a =
    run-Alike rest (step e (output id stream text) w) w' h (output-Alike e id stream text w w' a)
run-Alike ((e, exits id handle code signal) ∷ rest) w w' h a =
    run-Alike rest (step e (exits id handle code signal) w)
      (step e (exits id handle code signal) w') h.1 (exits-Alike e id handle code signal w w' a)
run-Alike ((e, starts id bin args) ∷ rest) w w' h a = absurd h.0
run-Alike ((e, stops id) ∷ rest) w w' h a = absurd h.0
run-Alike ((e, fails id msg) ∷ rest) w w' h a = absurd h.0
run-Alike ((e, term_timer n) ∷ rest) w w' h a = absurd h.0
run-Alike ((e, kill_timer n) ∷ rest) w w' h a = absurd h.0
