-- ===== src/Console/Refused/Tests.antt =====
-- The theorems on a refused click at a concrete console.
use dspark_edge.Base.{ℕ, ◌≡◌, ◌⊎◌, refl, true, false, none, some, List, [], ◌∷◌}
use dspark_edge.Types.{server, daemon, error}
use dspark_edge.Config.{save_config}
use dspark_edge.Process.{
  Env, already_running, not_found, start, launch, missing, boot, push_log, push_lines, push_line,
  push_ring, update_status, set_child, clear_logs, new, blank_proc, blank_status,
}
use dspark_edge.Process.Lines.{split_lines}
use dspark_edge.Process.Lifecycle.{core}
use dspark_edge.Base.Text.{lit}
use dspark_edge.Store
use dspark_edge.Store.{start_server, quickstart}
use dspark_edge.World.{Event, initial, starts, step, run}
use dspark_edge.Api.Actions.{Timeline, statuses}
use dspark_edge.Console.{Console, click}
use dspark_edge.Console.Refused.{click_restart_refused, click_quickstart_refused}
use dspark_edge.Samples.{
  sample_env, bare_env, sample_bin, sample_numbers, sample_json, sample_config,
}

abbrev one_start : List (Env × Event)
one_start = (sample_env, starts server sample_bin []) ∷ []

-- The server runs, and an edit of its settings is not saved.
abbrev edited : Console ℕ
edited = record {
  file = none;
  world = run one_start initial;
  state = record Store.initial { config = some sample_config; dirty = true };
}

abbrev times : Timeline
times = record { first = sample_env; second = sample_env; meanwhile = [] }

click_restart_refused_example :
    let (c', result) = click sample_numbers sample_json true times [] start_server edited in
    (result.ok ≡ false)
    × (result.error ≡ some (already_running server (core edited.world.manager server).status.pid))
    × (c'.world ≡ edited.world)
    × (c'.file ≡ save_config sample_json true sample_config none)
    × (c'.state.status ≡ statuses edited.world)
    × (c'.state.dirty ≡ false)
click_restart_refused_example =
    click_restart_refused sample_numbers sample_json true times [] sample_config edited one_start
      server refl refl
      (unfold core run step start launch boot push_log push_lines push_line push_ring update_status
          set_child clear_logs split_lines initial new blank_proc blank_status lit in
        refl)

-- No binary is there.
abbrev bare_times : Timeline
bare_times = record { first = bare_env; second = bare_env; meanwhile = [] }

abbrev fresh : Console ℕ
fresh = record {
  file = none;
  world = initial;
  state = record Store.initial { config = some sample_config };
}

click_quickstart_refused_example :
    let (c', result) = click sample_numbers sample_json true bare_times [] quickstart fresh in
    (result.ok ≡ false)
    × (result.error ≡ some (not_found sample_config.daemon.bin))
    × (core c'.world.manager server ≡ core initial.manager server)
    × (c'.state.status.server ≡ (core initial.manager server).status)
    × (((c'.world ≡ initial)
          × (not_found sample_config.daemon.bin
              ≡ already_running daemon (core initial.manager daemon).status.pid))
        ⊎ ((c'.state.status.daemon.state ≡ error)
            × (c'.state.status.daemon.error ≡ some (not_found sample_config.daemon.bin))))
click_quickstart_refused_example =
    click_quickstart_refused sample_numbers sample_json true bare_times [] sample_config fresh
      (not_found sample_config.daemon.bin) refl
      (unfold start missing initial new blank_proc blank_status in refl)
