-- ===== src/Process/Args.antt =====
-- The command lines that `serverArgs` and `daemonArgs` build
-- (tools/llama-dspark-test-ui/lib/process-manager.ts). `text` is `String(n)` of a setting.
use dspark_edge.Base.{List, [], ◌∷◌, ◌++◌, if◌then◌else◌}
use dspark_edge.Base.Text.{Text, is_set, lit, trim}
use dspark_edge.Types.{FlashAttn, on, off, ServerConfig, DaemonConfig}
use dspark_edge.Process.Tokenize.{tokenize_extra}

abbrev pub flash_text : FlashAttn → Text
flash_text on = lit "on"
flash_text off = lit "off"

module _ {N : Type 0} (text : N → Text) where
  abbrev pub base_args : ServerConfig N → List Text
  base_args cfg =
      lit "-m"
      ∷ cfg.target_model
      ∷ lit "--host"
      ∷ cfg.host
      ∷ lit "--port"
      ∷ text cfg.http_port
      ∷ lit "--ctx-size"
      ∷ text cfg.ctx_size
      ∷ lit "--n-gpu-layers"
      ∷ text cfg.n_gpu_layers
      ∷ lit "--flash-attn"
      ∷ flash_text cfg.flash_attn
      ∷ lit "--parallel"
      ∷ text cfg.parallel
      ∷ lit "--temp"
      ∷ text cfg.temp
      ∷ lit "--top-k"
      ∷ text cfg.top_k
      ∷ []

  abbrev pub spec_args : ServerConfig N → List Text
  spec_args cfg =
      lit "--spec-type"
      ∷ lit "draft-remote-dspark"
      ∷ lit "--spec-draft-remote-grpc"
      ∷ cfg.grpc_target
      ∷ lit "--spec-draft-n-max"
      ∷ text cfg.n_max
      ∷ []

  pub server_args : ServerConfig N → List Text
  server_args cfg =
      (if cfg.remote_spec then base_args cfg ++ spec_args cfg else base_args cfg)
      ++ tokenize_extra cfg.extra_args

  abbrev pub draft_args : DaemonConfig N → List Text
  draft_args cfg =
      lit "--model"
      ∷ cfg.draft_model
      ∷ lit "--host"
      ∷ cfg.host
      ∷ lit "--port"
      ∷ text cfg.grpc_port
      ∷ lit "--threads"
      ∷ text cfg.threads
      ∷ lit "--ctx-size"
      ∷ text cfg.ctx_size
      ∷ []

  unfoldable pub daemon_args : DaemonConfig N → List Text
  daemon_args cfg =
      (if is_set (trim cfg.target_model)
        then draft_args cfg ++ lit "--target-model" ∷ trim cfg.target_model ∷ []
        else draft_args cfg)
      ++ tokenize_extra cfg.extra_args
