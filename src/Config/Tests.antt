-- ===== src/Config/Tests.antt =====
-- The theorems on presets and the configuration file at concrete inputs.
use dspark_edge.Base.{◌≡◌, refl, true, none}
use dspark_edge.Config.{load_config, save_config}
use dspark_edge.Config.Laws.{load_config-save_config}
use dspark_edge.Samples.{
  sample_json, IsSample, sample_json-Reads, sample_host, sample_numbers, sample_config,
}

load_config-save_config_example :
    load_config sample_host sample_numbers sample_json
      (save_config sample_json true sample_config none)
    ≡ sample_config
load_config-save_config_example =
    load_config-save_config sample_host sample_numbers sample_json IsSample sample_json-Reads
      sample_config none refl
