-- ===== src/Console/Tests.antt =====
-- The theorems on a click at a concrete console.
use dspark_edge.Base.{ℕ, ◌≡◌, refl, true, none, some, List, [], ◌∷◌, ◌++◌, length}
use dspark_edge.Base.Text.{lit}
use dspark_edge.Types.{server}
use dspark_edge.Process.{
  start, launch, boot, push_log, push_lines, push_line, push_ring, update_status, set_child,
  clear_logs, new, blank_proc, blank_status, command_line, to_child, exit_state,
}
use dspark_edge.Types.{running, status_in}
use dspark_edge.Process.Lines.{split_lines}
use dspark_edge.Process.Lifecycle.{core}
use dspark_edge.Store.{AppState, start_server, stop_server}
use dspark_edge.Store
use dspark_edge.Store.Actions.{Action, clears}
use dspark_edge.World.{World, initial, starts, exits, step, run}
use dspark_edge.World.Stops.{IsSettledAt}
use dspark_edge.Api.Actions.{Timeline}
use dspark_edge.Api.Actions.Ready.{bin_of, args_of}
use dspark_edge.Console.{Console, Delivery, arrives, run_action, click}
use dspark_edge.Console.Laws.{Ends, run_action-Ends}
use dspark_edge.Console.Clicks.{click_start_runs, click_stop_exits}
use dspark_edge.Console.Quick.{with_daemon}
use dspark_edge.World.{output}
use dspark_edge.Types.{daemon, stdout}
use dspark_edge.Samples.{
  sample_child, sample_env, sample_bin, sample_numbers, sample_json, sample_config,
}

-- The server writes a line and exits while a request is handled.
abbrev times : Timeline
times = record {
  first = sample_env;
  second = sample_env;
  meanwhile =
      (sample_env, output server stdout (104 ∷ 10 ∷ []))
      ∷ (sample_env, exits server 1 (some 0) none)
      ∷ [];
}

abbrev page : AppState ℕ
page = record Store.initial { config = some sample_config }

-- The console at its start.
abbrev fresh : Console ℕ
fresh = record { file = none; world = initial; state = page }

-- The log is cleared in the browser while the answer is awaited.
abbrev during : List (Action ℕ)
during = clears ∷ []

-- The server that the click starts exits again before the response arrives.
abbrev too_late : Delivery
too_late = arrives ((sample_env, exits server 1 (some 0) none) ∷ [])

run_action-Ends_example :
    Ends sample_numbers sample_json true times during start_server sample_config fresh too_late
      (run_action sample_numbers sample_json too_late true times during start_server fresh)
run_action-Ends_example =
    run_action-Ends sample_numbers sample_json true times during start_server sample_config fresh
      too_late refl

click_start_runs_example :
    let (c', result) = click sample_numbers sample_json true times during start_server fresh in
    (result.ok ≡ true)
    × (status_in c'.state.status server ≡ record (core initial.manager server).status {
      state = running;
      pid = some 42;
      started_at = some 1000;
      exited_at = none;
      exit_code = none;
      signal = none;
      command = some (
          command_line
            (bin_of server sample_config)
            (args_of sample_numbers.text server sample_config));
      error = none;
    })
click_start_runs_example =
    click_start_runs sample_numbers sample_json true times during server sample_config fresh
      sample_child refl (unfold initial new blank_proc blank_status in refl) refl refl

-- The server runs.
abbrev serving : World
serving = run ((sample_env, starts server sample_bin []) ∷ []) initial

click_stop_exits_example :
    let (c', result) =
      click sample_numbers sample_json true times during stop_server
        (record fresh { world = serving }) in
    (result.ok ≡ true)
    × (c'.world.manager.sent ≡ serving.manager.sent ++ to_child sample_child (lit "SIGINT") ∷ [])
    × (IsSettledAt (length serving.waits) c'.world.waits)
    × (status_in c'.state.status server ≡ record (core serving.manager server).status {
      state = exit_state (some 0) none;
      pid = none;
      exited_at = some 1000;
      exit_code = some 0;
      signal = none;
    })
click_stop_exits_example =
    click_stop_exits sample_numbers sample_json true times during server sample_config
      (record fresh { world = serving }) sample_env sample_child 42 (some 0) none refl
      (unfold run step start launch boot push_log push_lines push_line push_ring update_status
          set_child clear_logs split_lines lit initial new blank_proc blank_status in
        refl)
      (unfold run step start launch boot push_log push_lines push_line push_ring update_status
          set_child clear_logs split_lines lit initial new blank_proc blank_status in
        refl)
      refl

-- The daemon writes a line while quick start waits.
abbrev quick_times : Timeline
quick_times = record times { meanwhile = (sample_env, output daemon stdout (104 ∷ 10 ∷ [])) ∷ [] }

abbrev launched_daemon : World
launched_daemon = with_daemon sample_numbers sample_json true quick_times during sample_config fresh
