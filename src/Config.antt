-- ===== src/Config.antt =====
-- The configuration: its defaults, the presets, and its file
-- (tools/llama-dspark-test-ui/lib/config-store.ts and lib/paths.ts).
pub mod Laws
mod Tests
use dspark_edge.Base.{
  ℕ, ◌≡◌, refl, Bool, true, false, Option, none, some, List, [], ◌∷◌, if◌then◌else◌, find,
}
use dspark_edge.Base.Text.{Text, lit, text_eq}
use dspark_edge.Numbers.{Numbers}
use dspark_edge.Types.{
  on, off, ServerConfig, DaemonConfig, DashboardConfig, ServerPatch, DaemonPatch, Preset,
}

-- What `node:path`, `process.cwd` and `process.env` give.
pub record Host : Type 0 where
  pub join : List Text → Text
  pub resolve : List Text → Text
  pub cwd : Text
  pub env : Text → Option Text

-- An environment variable that is set and not empty.
abbrev pub override : Option Text → Option Text
override none = none
override (some []) = none
override (some (c ∷ t)) = some (c ∷ t)

-- `x ? resolve(x) : other`
abbrev resolved_or : Host → Option Text → Text → Text
resolved_or h none other = other
resolved_or h (some x) other = h.resolve (x ∷ [])

module _ (h : Host) where
  pub repo_root : Text
  repo_root =
      resolved_or h (override (h.env (lit "DSPARK_REPO_ROOT")))
        (h.resolve (h.cwd ∷ lit ".." ∷ lit ".." ∷ []))

  pub build_dir : Text
  build_dir =
      resolved_or h (override (h.env (lit "DSPARK_BUILD_DIR")))
        (h.join (repo_root ∷ lit "build" ∷ []))

  pub models_dir : Text
  models_dir =
      resolved_or h (override (h.env (lit "DSPARK_MODELS_DIR")))
        (h.join (repo_root ∷ lit "models" ∷ []))

  pub default_server_bin : Text
  default_server_bin = h.join (build_dir ∷ lit "bin" ∷ lit "llama-server" ∷ [])

  pub default_daemon_bin : Text
  default_daemon_bin =
      h.join (build_dir ∷ lit "tools" ∷ lit "llama-dspark-grpcd" ∷ lit "llama-dspark-grpcd" ∷ [])

  pub config_file_path : Text
  config_file_path = h.join (h.cwd ∷ lit ".dashboard-config.json" ∷ [])

-- `existsSync` in a `try`: `none` is a call that threw.
pub exists : Option Bool → Bool
exists none = false
exists (some b) = b

-- One key of `{ ...base, ...patch }`.
abbrev pub or_old : {A : Type 0} → Option A → A → A
or_old none a = a
or_old (some b) a = b

module _ {N : Type 0} where
  -- `{ ...server, ...patch }`
  unfoldable pub merge_server : ServerConfig N → ServerPatch N → ServerConfig N
  merge_server c p = record {
    bin = or_old p.bin c.bin;
    target_model = or_old p.target_model c.target_model;
    host = or_old p.host c.host;
    http_port = or_old p.http_port c.http_port;
    ctx_size = or_old p.ctx_size c.ctx_size;
    n_gpu_layers = or_old p.n_gpu_layers c.n_gpu_layers;
    flash_attn = or_old p.flash_attn c.flash_attn;
    parallel = or_old p.parallel c.parallel;
    remote_spec = or_old p.remote_spec c.remote_spec;
    grpc_target = or_old p.grpc_target c.grpc_target;
    n_max = or_old p.n_max c.n_max;
    temp = or_old p.temp c.temp;
    top_k = or_old p.top_k c.top_k;
    extra_args = or_old p.extra_args c.extra_args;
  }

  -- `{ ...daemon, ...patch }`
  unfoldable pub merge_daemon : DaemonConfig N → DaemonPatch N → DaemonConfig N
  merge_daemon c p = record {
    bin = or_old p.bin c.bin;
    draft_model = or_old p.draft_model c.draft_model;
    target_model = or_old p.target_model c.target_model;
    host = or_old p.host c.host;
    grpc_port = or_old p.grpc_port c.grpc_port;
    threads = or_old p.threads c.threads;
    ctx_size = or_old p.ctx_size c.ctx_size;
    extra_args = or_old p.extra_args c.extra_args;
  }

  unfoldable pub empty_server : ServerPatch N
  empty_server = record {
    bin = none;
    target_model = none;
    host = none;
    http_port = none;
    ctx_size = none;
    n_gpu_layers = none;
    flash_attn = none;
    parallel = none;
    remote_spec = none;
    grpc_target = none;
    n_max = none;
    temp = none;
    top_k = none;
    extra_args = none;
  }

  pub empty_daemon : DaemonPatch N
  empty_daemon = record {
    bin = none;
    draft_model = none;
    target_model = none;
    host = none;
    grpc_port = none;
    threads = none;
    ctx_size = none;
    extra_args = none;
  }

  -- A patch that gives every key.
  pub all_server : ServerConfig N → ServerPatch N
  all_server c = record {
    bin = some c.bin;
    target_model = some c.target_model;
    host = some c.host;
    http_port = some c.http_port;
    ctx_size = some c.ctx_size;
    n_gpu_layers = some c.n_gpu_layers;
    flash_attn = some c.flash_attn;
    parallel = some c.parallel;
    remote_spec = some c.remote_spec;
    grpc_target = some c.grpc_target;
    n_max = some c.n_max;
    temp = some c.temp;
    top_k = some c.top_k;
    extra_args = some c.extra_args;
  }

  pub all_daemon : DaemonConfig N → DaemonPatch N
  all_daemon c = record {
    bin = some c.bin;
    draft_model = some c.draft_model;
    target_model = some c.target_model;
    host = some c.host;
    grpc_port = some c.grpc_port;
    threads = some c.threads;
    ctx_size = some c.ctx_size;
    extra_args = some c.extra_args;
  }

  -- The preset's part of `applyPreset`.
  abbrev pub with_preset : DashboardConfig N → Text → Option (Preset N) → DashboardConfig N
  with_preset cfg id none = cfg
  with_preset cfg id (some p) = record {
    server = merge_server cfg.server p.server;
    daemon = merge_daemon cfg.daemon p.daemon;
    active_preset = id;
  }

  -- `presets.find((p) => p.id === id)`
  abbrev pub find_preset : Text → List (Preset N) → Option (Preset N)
  find_preset id = find (λ p. text_eq p.id id)

module _ {N : Type 0} (h : Host) (num : Numbers N) where
  pub default_server_config : ServerConfig N
  default_server_config = record {
    bin = default_server_bin h;
    target_model = h.join (models_dir h ∷ lit "Qwen3-4B-Q4_K_M.gguf" ∷ []);
    host = lit "127.0.0.1";
    http_port = num.of_nat 8080;
    ctx_size = num.of_nat 4096;
    n_gpu_layers = num.of_nat 99;
    flash_attn = on;
    parallel = num.of_nat 1;
    remote_spec = true;
    grpc_target = lit "127.0.0.1:50051";
    n_max = num.of_nat 7;
    temp = num.of_nat 0;
    top_k = num.of_nat 1;
    extra_args = [];
  }

  pub default_daemon_config : DaemonConfig N
  default_daemon_config = record {
    bin = default_daemon_bin h;
    draft_model = h.join (models_dir h ∷ lit "dspark_qwen3_4b_block7.gguf" ∷ []);
    target_model = [];
    host = lit "127.0.0.1";
    grpc_port = num.of_nat 50051;
    threads = num.of_nat 4;
    ctx_size = num.of_nat 4096;
    extra_args = [];
  }

  pub default_config : DashboardConfig N
  default_config = record {
    server = default_server_config;
    daemon = default_daemon_config;
    active_preset = lit "qwen3-gpu";
  }

  pub qwen3_gpu : Preset N
  qwen3_gpu = record {
    id = lit "qwen3-gpu";
    label = lit "Qwen3-4B";
    arch = lit "dflash";
    blurb = lit "GPU target, flash-attn on. Draft needs --target-model.";
    server = record empty_server {
      target_model = some (h.join (models_dir h ∷ lit "Qwen3-4B-Q4_K_M.gguf" ∷ []));
      n_gpu_layers = some (num.of_nat 99);
      flash_attn = some on;
      ctx_size = some (num.of_nat 4096);
      n_max = some (num.of_nat 7);
    };
    daemon = record empty_daemon {
      draft_model = some (h.join (models_dir h ∷ lit "dspark_qwen3_4b_block7.gguf" ∷ []));
      target_model = some (h.join (models_dir h ∷ lit "Qwen3-4B-Q4_K_M.gguf" ∷ []));
      ctx_size = some (num.of_nat 4096);
    };
  }

  pub gemma_cpu : Preset N
  gemma_cpu = record {
    id = lit "gemma-cpu";
    label = lit "Gemma 4 12B";
    arch = lit "dspark";
    blurb = lit "Quantized target, CPU-only. No draft --target-model needed.";
    server = record empty_server {
      target_model = some (h.join (models_dir h ∷ lit "gemma-4-12b-it-Q4_0.gguf" ∷ []));
      n_gpu_layers = some (num.of_nat 0);
      flash_attn = some off;
      ctx_size = some (num.of_nat 512);
      n_max = some (num.of_nat 4);
    };
    daemon = record empty_daemon {
      draft_model = some (h.join (models_dir h ∷ lit "dspark_gemma4_12b_q4pure.gguf" ∷ []));
      target_model = some [];
      ctx_size = some (num.of_nat 512);
    };
  }

  pub presets : List (Preset N)
  presets = qwen3_gpu ∷ gemma_cpu ∷ []

  pub apply_preset : DashboardConfig N → Text → DashboardConfig N
  unfolding presets
  apply_preset cfg id = with_preset cfg id (find_preset id presets)

  pub apply_preset_lem :
      (cfg : DashboardConfig N) (id : Text)
      → apply_preset cfg id ≡ with_preset cfg id (find_preset id presets)
  unfolding apply_preset
  apply_preset_lem cfg id = refl

-- `Partial<DashboardConfig>`, as the file may hold it.
pub record PartialConfig (N : Type 0) : Type 0 where
  pub active_preset : Option Text
  pub server : Option (ServerPatch N)
  pub daemon : Option (DaemonPatch N)

-- What `JSON` does with a configuration. `parse` is `none` where reading the text or the value's
-- fields throws.
pub record Json (N : Type 0) : Type 0 where
  pub stringify : DashboardConfig N → Text
  pub parse : Text → Option (PartialConfig N)

module _ {N : Type 0} where
  abbrev pub patched_server : ServerConfig N → Option (ServerPatch N) → ServerConfig N
  patched_server base none = merge_server base empty_server
  patched_server base (some p) = merge_server base p

  abbrev pub patched_daemon : DaemonConfig N → Option (DaemonPatch N) → DaemonConfig N
  patched_daemon base none = merge_daemon base empty_daemon
  patched_daemon base (some p) = merge_daemon base p

  -- The `return` of the `try` in `loadConfig`, or its `catch`.
  abbrev pub loaded : DashboardConfig N → Option (PartialConfig N) → DashboardConfig N
  loaded base none = base
  loaded base (some parsed) = record {
    active_preset = or_old parsed.active_preset base.active_preset;
    server = patched_server base.server parsed.server;
    daemon = patched_daemon base.daemon parsed.daemon;
  }

  -- `readFileSync` and `JSON.parse`; a file that cannot be read is `none`.
  abbrev pub read_config : Json N → Option Text → Option (PartialConfig N)
  read_config json none = none
  read_config json (some raw) = json.parse raw

module _ {N : Type 0} (h : Host) (num : Numbers N) (json : Json N) where
  pub load_config : Option Text → DashboardConfig N
  load_config file = loaded (default_config h num) (read_config json file)

-- `saveConfig`: the file after it, where `written` says whether the write went through.
pub save_config : {N : Type 0} → Json N → Bool → DashboardConfig N → Option Text → Option Text
save_config json written cfg file = if written then some (json.stringify cfg) else file
