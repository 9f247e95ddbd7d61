-- ===== src/Store/Tests.antt =====
-- The theorems on the browser's store at concrete states.
use dspark_edge.Base.{ℕ, ◌≡◌, refl, some, List, [], ◌∷◌}
use dspark_edge.Base.Text.{lit}
use dspark_edge.Types.{server, ServerPatch, Statuses}
use dspark_edge.Process.{blank_status}
use dspark_edge.Types
use dspark_edge.Config
use dspark_edge.Config.{merge_server, empty_server}
use dspark_edge.Store.{AppState, stop_all, failed, initial, apply_preset}
use dspark_edge.Store.Actions.{Action, logged, ends, begins, act_all}
use dspark_edge.Store.Bounds.{IsBounded, act_all-IsBounded}
use dspark_edge.Store.Presets.{apply_preset_agrees}
use dspark_edge.Samples.{sample_host, sample_numbers, sample_config, sample_line}

-- A store that has loaded its configuration and the presets.
abbrev ready : AppState ℕ
ready = record initial {
  config = some sample_config;
  presets = Config.presets sample_host sample_numbers;
}

abbrev sample_statuses : Statuses
sample_statuses = record { server = blank_status Types.server; daemon = blank_status Types.daemon }

abbrev sample_patch : ServerPatch ℕ
sample_patch = record empty_server { n_max = some 3 }

abbrev sample_actions : List (Action ℕ)
sample_actions = logged sample_line ∷ begins stop_all ∷ ends stop_all (failed []) ∷ []

apply_preset_agrees_example :
    (apply_preset (lit "gemma-cpu") ready).config
    ≡ some (Config.apply_preset sample_host sample_numbers sample_config (lit "gemma-cpu"))
apply_preset_agrees_example =
    apply_preset_agrees sample_host sample_numbers (lit "gemma-cpu") ready sample_config refl refl

act_all-IsBounded_example : IsBounded (act_all sample_numbers sample_actions initial)
act_all-IsBounded_example = act_all-IsBounded sample_numbers sample_actions
