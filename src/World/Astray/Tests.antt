-- ===== src/World/Astray/Tests.antt =====
-- The theorem on a signal that goes astray at a concrete run.
use dspark_edge.Base.{◌≡◌, refl, some, [], ◌∷◌, ◌++◌, length}
use dspark_edge.Base.Text.{lit}
use dspark_edge.Types.{server}
use dspark_edge.Process.{
  Env, Child, child, to_child, start, launch, boot, push_log, push_lines, push_line, push_ring,
  update_status, set_child, clear_logs, new, blank_proc, blank_status,
}
use dspark_edge.Process.Lines.{split_lines}
use dspark_edge.Process.Lifecycle.{core}
use dspark_edge.World.{World, initial, stops, fails, starts, term_timer, step, run}
use dspark_edge.World.Astray.{late_term_hits}
use dspark_edge.Samples.{sample_child, sample_env, sample_bin}

abbrev serving : World
serving = run ((sample_env, starts server sample_bin []) ∷ []) initial

abbrev other_child : Child
other_child = record { handle = 2; pid = some 43 }

abbrev other_env : Env
other_env = record sample_env { spawn = λ bin args. child other_child }

late_term_hits_example :
    let w' =
      run
        ((other_env, stops server)
          ∷ (other_env, fails server (lit "kill EPERM"))
          ∷ (other_env, starts server sample_bin [])
          ∷ [])
        serving in
    ((core w'.manager server).child ≡ some other_child)
    × (w'.manager.sent ≡ serving.manager.sent ++ to_child sample_child (lit "SIGINT") ∷ [])
    × ((step other_env (term_timer (length serving.waits)) w').manager.sent
        ≡ w'.manager.sent ++ to_child other_child (lit "SIGTERM") ∷ [])
late_term_hits_example =
    late_term_hits other_env server sample_bin [] (lit "kill EPERM") sample_child other_child 42
      serving
      (unfold run step start launch boot push_log push_lines push_line push_ring update_status
          set_child clear_logs split_lines lit initial new blank_proc blank_status in
        refl)
      (unfold run step start launch boot push_log push_lines push_line push_ring update_status
          set_child clear_logs split_lines lit initial new blank_proc blank_status in
        refl)
      refl refl
