-- ===== src/Console/AllStop/Tests.antt =====
-- The theorem on Stop all at a concrete console.
use dspark_edge.Base.{ℕ, suc, ◌≡◌, refl, inr, true, none, some, [], ◌∷◌, ◌++◌, length}
use dspark_edge.Base.Text.{lit, join}
use dspark_edge.Types.{stdout, server, daemon}
use dspark_edge.Process.{
  Env, Child, child, start, launch, boot, push_log, push_lines, push_line, push_ring, update_status,
  set_child, clear_logs, new, blank_proc, blank_status, to_child, proc, status_of, command_line,
}
use dspark_edge.Process.Lines.{split_lines}
use dspark_edge.Process.Lifecycle.{core}
use dspark_edge.Store
use dspark_edge.Store.{AppState, stop_all}
use dspark_edge.World.{output, World, initial, starts, step, run}
use dspark_edge.World.Stops.{IsSettledAt}
use dspark_edge.Api.Actions.{Timeline}
use dspark_edge.Api.Actions.AllStopped.{Exit, leaving}
use dspark_edge.Console.{Console, click}
use dspark_edge.Console.AllStop.{after_exit, click_stop_all_exits}
use dspark_edge.Samples.{
  sample_child, sample_env, sample_bin, sample_numbers, sample_json, sample_config,
}

-- A second child, with which the daemon is started.
abbrev second_child : Child
second_child = record { handle = 2; pid = some 43 }

abbrev second_env : Env
second_env = record sample_env { spawn = λ bin args. child second_child }

abbrev both_up : World
both_up =
    run ((sample_env, starts server sample_bin []) ∷ (second_env, starts daemon sample_bin []) ∷ [])
      initial

up :
    ((proc both_up.manager server).child ≡ some sample_child)
    × ((status_of both_up.manager server).pid ≡ some 42)
    × ((proc both_up.manager daemon).child ≡ some second_child)
    × ((status_of both_up.manager daemon).pid ≡ some 43)
unfolding run step start launch boot push_log push_lines push_line push_ring update_status set_child
    clear_logs split_lines lit initial new blank_proc blank_status command_line join
up = (refl, refl, refl, refl)

-- The server ends by itself, the daemon by the signal.
abbrev of_server : Exit
of_server = record { env = sample_env; code = some 0; signal = none }

abbrev of_daemon : Exit
of_daemon = record { env = second_env; code = none; signal = some (lit "SIGINT") }

abbrev times : Timeline
times = record {
  first = sample_env;
  second = sample_env;
  meanwhile =
      leaving daemon second_child of_daemon
      ∷ (sample_env, output server stdout (104 ∷ 10 ∷ []))
      ∷ leaving server sample_child of_server
      ∷ [];
}

abbrev running_console : Console ℕ
running_console = record {
  file = none;
  world = both_up;
  state = record Store.initial { config = some sample_config };
}

click_stop_all_exits_example :
    let (c', result) = click sample_numbers sample_json true times [] stop_all running_console in
    (result.ok ≡ true)
    × (c'.world.manager.sent
        ≡ (both_up.manager.sent ++ to_child sample_child (lit "SIGINT") ∷ [])
          ++ to_child second_child (lit "SIGINT") ∷ [])
    × IsSettledAt (length both_up.waits) c'.world.waits
    × IsSettledAt (suc (length both_up.waits)) c'.world.waits
    × (c'.state.status.server ≡ after_exit of_server (core both_up.manager server).status)
    × (c'.state.status.daemon ≡ after_exit of_daemon (core both_up.manager daemon).status)
click_stop_all_exits_example =
    click_stop_all_exits sample_numbers sample_json true times [] sample_config running_console
      sample_child second_child 42 43 of_server of_daemon refl up.0 up.1 up.2 up.3 (inr refl)
