-- ===== src/Samples.antt =====
-- Concrete surroundings, configurations and numbers that the tests of the parts share.
use dspark_edge.Base.{ℕ, true, false, none, some, [], ◌∷◌}
use dspark_edge.Base.Text.{Text, lit, join, decimal}
use dspark_edge.Numbers.{Numbers}
use dspark_edge.Types.{server, stdout, on, LogLine, ServerConfig, DaemonConfig, DashboardConfig}
use dspark_edge.Config.{Host, Json, all_server, all_daemon}
use dspark_edge.Config.Laws.{Reads}
use dspark_edge.Base.{◌≡◌}
use dspark_edge.Process.{Env, Child, child}

abbrev pub sample_child : Child
sample_child = record { handle = 1; pid = some 42 }

-- Every binary is there, and `spawn` returns a child.
abbrev pub sample_env : Env
sample_env = record {
  now = 1000;
  clock = λ n. n;
  exists = λ bin. true;
  spawn = λ bin args. child sample_child;
}

-- No binary is there.
abbrev pub bare_env : Env
bare_env = record sample_env { exists = λ bin. false }

abbrev pub sample_bin : Text
sample_bin = 98 ∷ []

abbrev pub sample_numbers : Numbers ℕ
sample_numbers = record {
  of_nat = λ n. n;
  text = decimal;
  times = λ a b. a;
  over = λ a b. a;
  round = λ a. a;
}

abbrev pub sample_host : Host
sample_host = record {
  join = join (47 ∷ []);
  resolve = join (47 ∷ []);
  cwd = 119 ∷ [];
  env = λ name. none;
}

abbrev pub sample_server : ServerConfig ℕ
sample_server = record {
  bin = 98 ∷ [];
  target_model = 109 ∷ [];
  host = lit "0.0.0.0";
  http_port = 8080;
  ctx_size = 512;
  n_gpu_layers = 99;
  flash_attn = on;
  parallel = 1;
  remote_spec = true;
  grpc_target = lit "127.0.0.1:50051";
  n_max = 7;
  temp = 0;
  top_k = 1;
  extra_args = [];
}

abbrev pub sample_daemon : DaemonConfig ℕ
sample_daemon = record {
  bin = 98 ∷ [];
  draft_model = 100 ∷ [];
  target_model = 32 ∷ 116 ∷ [];
  host = lit "127.0.0.1";
  grpc_port = 50051;
  threads = 4;
  ctx_size = 512;
  extra_args = [];
}

abbrev pub sample_config : DashboardConfig ℕ
sample_config = record { server = sample_server; daemon = sample_daemon; active_preset = [] }

abbrev pub sample_line : LogLine
sample_line = record { id = 7; proc = server; stream = stdout; text = 104 ∷ []; ts = 7 }

-- A JSON that writes and reads one configuration only.
abbrev pub sample_json : Json ℕ
sample_json = record {
  stringify = λ cfg. [];
  parse = λ raw. some (record {
    active_preset = some sample_config.active_preset;
    server = some (all_server sample_config.server);
    daemon = some (all_daemon sample_config.daemon);
  });
}

abbrev pub IsSample : DashboardConfig ℕ → Type 0
IsSample cfg = cfg ≡ sample_config

pub sample_json-Reads : Reads sample_json IsSample
sample_json-Reads = record { parse-stringify = λ cfg same. rw (same) }
