-- ===== src/World/Tests.antt =====
-- The theorems on runs of the manager at a concrete run.
use dspark_edge.Base.{◌≡◌, refl, true, false, none, some, List, [], ◌∷◌, ◌++◌, length}
use dspark_edge.Types.{server, stdout}
use dspark_edge.Base.Text.{lit}
use dspark_edge.Process.{
  to_child, kill_pid, Env, start, launch, boot, push_log, push_lines, push_line, push_ring,
  update_status, set_child, clear_logs, on_data, new, blank_proc, blank_status,
}
use dspark_edge.Process.Lines.{split_lines}
use dspark_edge.World.{
  World, Wait, initial, Event, starts, stops, output, exits, term_timer, kill_timer, step, run,
  stop, stop_with,
}
use dspark_edge.World.Escalate.{stop_escalates}
use dspark_edge.World.Reach.{Inv, run-Inv}
use dspark_edge.World.Stops.{IsSettledAt, by_exit, stop_resolves}
use dspark_edge.Samples.{sample_child, sample_env, sample_bin}

-- A server is started, writes a line, and is asked to stop.
abbrev sample_run : List (Env × Event)
sample_run =
    (sample_env, starts server sample_bin [])
    ∷ (sample_env, output server stdout (104 ∷ 10 ∷ []))
    ∷ (sample_env, stops server)
    ∷ []

abbrev sample_wait : Wait
sample_wait = record {
  proc = server;
  child = sample_child;
  pid = 42;
  armed = true;
  settled = false;
}

run-Inv_example : Inv (run sample_run initial)
run-Inv_example = run-Inv sample_run

abbrev resolved : World
resolved =
    run ((sample_env, term_timer 0) ∷ [])
      (step sample_env (exits server 1 (some 0) none) (run sample_run initial))

stop_resolves_example :
    IsSettledAt 0 resolved.waits
    × (step sample_env (term_timer 0) resolved ≡ resolved)
    × (step sample_env (kill_timer 0) resolved ≡ resolved)
stop_resolves_example =
    stop_resolves 0 sample_wait (exits server 1 (some 0) none) sample_env sample_env
      (run sample_run initial) ((sample_env, term_timer 0) ∷ [])
      (unfold run step stop stop_with start launch boot push_log push_lines push_line push_ring
          update_status set_child clear_logs on_data split_lines lit initial new blank_proc
          blank_status in
        refl)
      (by_exit server (some 0) none)

-- A server that runs.
abbrev serving : World
serving = run ((sample_env, starts server sample_bin []) ∷ []) initial

stop_escalates_example :
    let w' =
      run
        ((sample_env, stops server)
          ∷ (sample_env, term_timer (length serving.waits))
          ∷ (sample_env, kill_timer (length serving.waits))
          ∷ [])
        serving in
    (w'.manager.sent
      ≡ serving.manager.sent
        ++ to_child sample_child (lit "SIGINT")
          ∷ to_child sample_child (lit "SIGTERM")
          ∷ kill_pid 42
          ∷ [])
    × IsSettledAt (length serving.waits) w'.waits
stop_escalates_example =
    stop_escalates sample_env server sample_child 42 serving
      (unfold run step start launch boot push_log push_lines push_line push_ring update_status
          set_child clear_logs split_lines lit initial new blank_proc blank_status in
        refl)
      (unfold run step start launch boot push_log push_lines push_line push_ring update_status
          set_child clear_logs split_lines lit initial new blank_proc blank_status in
        refl)
      refl
