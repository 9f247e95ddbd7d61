-- ===== src/World/LifeTests.antt =====
-- The theorems on the life of a process at a concrete run.
use dspark_edge.Base.{◌≡◌, refl, none, some, List, [], ◌∷◌, arith}
use dspark_edge.Base.Text.{lit}
use dspark_edge.Types.{server, daemon, stdout, running, same_proc}
use dspark_edge.Process.{
  Child, child, Env, start, launch, boot, push_log, push_lines, push_line, push_ring, update_status,
  set_child, clear_logs, new, blank_proc, blank_status,
}
use dspark_edge.Process.Lines.{split_lines}
use dspark_edge.Process.Lifecycle.{core}
use dspark_edge.Process.Life.{Moves}
use dspark_edge.World.{World, initial, Event, starts, stops, output, fails, exits, step, run}
use dspark_edge.World.Life.{step-Moves, run-undisturbed, IsUp}
use dspark_edge.World.Orphan.{late_exit_forgets}
use dspark_edge.Samples.{sample_child, sample_env, sample_bin}

-- A server that runs.
abbrev serving : World
serving = run ((sample_env, starts server sample_bin []) ∷ []) initial

serving-IsUp : IsUp (core serving.manager server)
unfolding core run step start launch boot push_log push_lines push_line push_ring update_status
    set_child clear_logs split_lines lit initial new blank_proc blank_status
serving-IsUp = (refl, refl, ground arith)

serving-held : (core serving.manager server).child ≡ some sample_child
unfolding core run step start launch boot push_log push_lines push_line push_ring update_status
    set_child clear_logs split_lines lit initial new blank_proc blank_status
serving-held = refl

abbrev exit : Event
exit = exits server 1 (some 0) none

step-Moves_example :
    Moves (core serving.manager server) (core (step sample_env exit serving).manager server)
step-Moves_example = step-Moves sample_env exit serving server

-- A second start, output, an error of the daemon and its stop.
abbrev around : List (Env × Event)
around =
    (sample_env, starts server sample_bin [])
    ∷ (sample_env, output server stdout (104 ∷ 10 ∷ []))
    ∷ (sample_env, fails daemon (101 ∷ []))
    ∷ (sample_env, stops daemon)
    ∷ (sample_env, stops server)
    ∷ []

run-undisturbed_example : core (run around serving).manager server ≡ core serving.manager server
run-undisturbed_example =
    run-undisturbed server around serving (tt, (tt, (unfold same_proc in refl, (tt, (tt, tt)))))
      serving-IsUp

abbrev second_child : Child
second_child = record { handle = 2; pid = some 43 }

abbrev second_env : Env
second_env = record sample_env { spawn = λ bin args. child second_child }

abbrev twice : World
twice =
    run ((second_env, fails server (101 ∷ [])) ∷ (second_env, starts server sample_bin []) ∷ [])
      serving

late_exit_forgets_example :
    let w = step second_env exit twice in
    ((core twice.manager server).child ≡ some second_child)
    × ((core twice.manager server).status.state ≡ running)
    × ((core w.manager server).child ≡ none)
    × ((core w.manager server).status.pid ≡ none)
late_exit_forgets_example =
    late_exit_forgets second_env server sample_bin [] (101 ∷ []) sample_child second_child (some 0)
      none serving serving-held refl refl
