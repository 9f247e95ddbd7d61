-- ===== src/Console/Preset/Tests.antt =====
-- The theorem on a preset and a click of Start at a concrete console.
use dspark_edge.Base.{ℕ, ◌≡◌, refl, true, false, none, some, [], ◌∷◌}
use dspark_edge.Base.Text.{lit, text_eq}
use dspark_edge.Types.{daemon, running, status_in, Preset}
use dspark_edge.Config.{save_config, find_preset, empty_server, empty_daemon}
use dspark_edge.Process.{new, blank_proc, blank_status, command_line}
use dspark_edge.Store
use dspark_edge.Store.{start_daemon}
use dspark_edge.World.{initial}
use dspark_edge.Panels.Notices.Laws.{chosen}
use dspark_edge.Api.Actions.{Timeline}
use dspark_edge.Api.Actions.Ready.{bin_of, args_of}
use dspark_edge.Console.{Console, click}
use dspark_edge.Console.Preset.{preset_clicked, preset_start_runs}
use dspark_edge.Samples.{sample_child, sample_env, sample_numbers, sample_json, sample_config}

abbrev preset : Preset ℕ
preset = record {
  id = 112 ∷ [];
  label = 80 ∷ [];
  arch = 97 ∷ [];
  blurb = [];
  server = record empty_server { ctx_size = some 4096 };
  daemon = record empty_daemon { threads = some 2; target_model = some (lit "/m.gguf") };
}

abbrev times : Timeline
times = record { first = sample_env; second = sample_env; meanwhile = [] }

abbrev loaded : Console ℕ
loaded = record {
  file = none;
  world = initial;
  state = record Store.initial { config = some sample_config; presets = preset ∷ [] };
}

preset_start_runs_example :
    let cfg = chosen preset sample_config in
    let (c', result) =
      click sample_numbers sample_json true times [] start_daemon (preset_clicked preset loaded) in
    (result.ok ≡ true)
    × (c'.file ≡ save_config sample_json true cfg none)
    × ((status_in c'.state.status daemon).state ≡ running)
    × ((status_in c'.state.status daemon).pid ≡ some 42)
    × ((status_in c'.state.status daemon).command
        ≡ some (command_line (bin_of daemon cfg) (args_of sample_numbers.text daemon cfg)))
    × (c'.state.dirty ≡ false)
preset_start_runs_example =
    preset_start_runs sample_numbers sample_json true times [] daemon preset sample_config loaded
      sample_child refl (unfold find_preset text_eq in refl)
      (unfold initial new blank_proc blank_status in refl) refl refl
