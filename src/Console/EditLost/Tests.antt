-- ===== src/Console/EditLost/Tests.antt =====
-- The theorem on an edit that is marked as saved at a concrete console.
use dspark_edge.Base.{ℕ, ◌≡◌, refl, true, false, none, some, [], ◌∷◌}
use dspark_edge.Base.Text.{lit}
use dspark_edge.Config.{load_config}
use dspark_edge.Store
use dspark_edge.Store.{start_server}
use dspark_edge.Store.Actions.{patches_server}
use dspark_edge.World.{initial}
use dspark_edge.Panels.Fields.{ServerEdit, to_target_model, server_edit}
use dspark_edge.Api.Actions.{Timeline}
use dspark_edge.Console.{Console, arrives, run_action}
use dspark_edge.Console.Edited.{edited_config}
use dspark_edge.Console.EditLost.{edit_during_click_lost}
use dspark_edge.Samples.{
  sample_env, sample_host, sample_numbers, sample_json, sample_config, IsSample, sample_json-Reads,
}

abbrev times : Timeline
times = record { first = sample_env; second = sample_env; meanwhile = [] }

abbrev loaded : Console ℕ
loaded = record {
  file = none;
  world = initial;
  state = record Store.initial { config = some sample_config };
}

abbrev other_model : ServerEdit ℕ
other_model = to_target_model (lit "/models/b.gguf")

edit_during_click_lost_example :
    let during = patches_server (server_edit other_model) ∷ [] in
    let (c', result) =
      run_action sample_numbers sample_json (arrives []) true times during start_server loaded in
    (c'.state.config ≡ some (edited_config other_model sample_config))
    × (c'.state.dirty ≡ false)
    × (load_config sample_host sample_numbers sample_json c'.file ≡ sample_config)
edit_during_click_lost_example =
    edit_during_click_lost sample_numbers sample_json sample_host IsSample sample_json-Reads times
      [] start_server sample_config loaded other_model refl refl
