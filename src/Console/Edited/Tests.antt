-- ===== src/Console/Edited/Tests.antt =====
-- The theorem on an edit and a click of Start at a concrete console.
use dspark_edge.Base.{ℕ, ◌≡◌, refl, true, false, none, some, []}
use dspark_edge.Base.Text.{lit}
use dspark_edge.Types.{running}
use dspark_edge.Config.{save_config}
use dspark_edge.Process.{new, blank_proc, blank_status, command_line}
use dspark_edge.Process.Args.{server_args}
use dspark_edge.Store
use dspark_edge.Store.{start_server}
use dspark_edge.World.{initial}
use dspark_edge.Panels.Fields.{ServerEdit, to_target_model}
use dspark_edge.Api.Actions.{Timeline}
use dspark_edge.Console.{Console, click}
use dspark_edge.Console.Edited.{edited, edited_config, edited_start_runs}
use dspark_edge.Samples.{sample_child, sample_env, sample_numbers, sample_json, sample_config}

abbrev times : Timeline
times = record { first = sample_env; second = sample_env; meanwhile = [] }

abbrev loaded : Console ℕ
loaded = record {
  file = none;
  world = initial;
  state = record Store.initial { config = some sample_config };
}

-- Another model is chosen.
abbrev other_model : ServerEdit ℕ
other_model = to_target_model (lit "/models/b.gguf")

edited_start_runs_example :
    let cfg = edited_config other_model sample_config in
    let (c', result) =
      click sample_numbers sample_json true times [] start_server (edited other_model loaded) in
    (result.ok ≡ true)
    × (c'.file ≡ save_config sample_json true cfg none)
    × (c'.state.status.server.state ≡ running)
    × (c'.state.status.server.pid ≡ some 42)
    × (c'.state.status.server.command
        ≡ some (command_line cfg.server.bin (server_args sample_numbers.text cfg.server)))
    × (c'.state.dirty ≡ false)
edited_start_runs_example =
    edited_start_runs sample_numbers sample_json true times [] sample_config loaded other_model
      sample_child refl (unfold initial new blank_proc blank_status in refl) refl refl
