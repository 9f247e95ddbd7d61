-- ===== src/Grpcd/Laws.antt =====
-- The daemon reads the settings that the console starts it with
-- (daemonArgs of tools/llama-dspark-test-ui/lib/process-manager.ts).
use dspark_edge.Base.{◌≡◌, false, []}
use dspark_edge.Base.Text.{Text, trim}
use dspark_edge.Numbers.{Numbers}
use dspark_edge.Types.{DaemonConfig}
use dspark_edge.Grpcd.{CmdlineArgs, default_args}

-- `std::atoi` reads back the numbers of the settings: they are written as whole numbers that an
-- `int` can hold.
pub record ReadsNumbers {N : Type 0} (text : N → Text) (atoi : Text → N) (cfg : DaemonConfig N)
    : Type 0 where
  pub port : atoi (text cfg.grpc_port) ≡ cfg.grpc_port
  pub threads : atoi (text cfg.threads) ≡ cfg.threads
  pub ctx_size : atoi (text cfg.ctx_size) ≡ cfg.ctx_size

-- The settings as the daemon holds them.
abbrev pub read_config : {N : Type 0} → DaemonConfig N → CmdlineArgs N
read_config cfg = record {
  model_path = cfg.draft_model;
  target_model_path = trim cfg.target_model;
  host = cfg.host;
  port = cfg.grpc_port;
  n_threads = cfg.threads;
  n_ctx = cfg.ctx_size;
  watch = false;
  selftest = false;
  replay_dir = [];
}

module _ {N : Type 0} (num : Numbers N) (atoi : Text → N) where
  -- The settings before the target model, as they are read.
  abbrev drafted : DaemonConfig N → CmdlineArgs N
  drafted cfg = record (default_args num atoi) {
    model_path = cfg.draft_model;
    host = cfg.host;
    port = atoi (num.text cfg.grpc_port);
    n_threads = atoi (num.text cfg.threads);
    n_ctx = atoi (num.text cfg.ctx_size);
  }
