-- ===== src/Panels/Notices/Laws.antt =====
-- What a click on a preset comes to.
use dspark_edge.Base.{◌≡◌, refl, true, some}
use dspark_edge.Types.{DashboardConfig, Preset}
use dspark_edge.Config.{or_old, merge_server, merge_daemon, find_preset}
use dspark_edge.Store.{AppState, apply_preset}
use dspark_edge.Panels.Notices.{click_preset}

module _ {N : Type 0} (p : Preset N) (c : DashboardConfig N) where
  -- The configuration with each setting that the preset gives in place of its own.
  abbrev pub chosen : DashboardConfig N
  chosen = record {
    active_preset = p.id;
    server = record {
      bin = or_old p.server.bin c.server.bin;
      target_model = or_old p.server.target_model c.server.target_model;
      host = or_old p.server.host c.server.host;
      http_port = or_old p.server.http_port c.server.http_port;
      ctx_size = or_old p.server.ctx_size c.server.ctx_size;
      n_gpu_layers = or_old p.server.n_gpu_layers c.server.n_gpu_layers;
      flash_attn = or_old p.server.flash_attn c.server.flash_attn;
      parallel = or_old p.server.parallel c.server.parallel;
      remote_spec = or_old p.server.remote_spec c.server.remote_spec;
      grpc_target = or_old p.server.grpc_target c.server.grpc_target;
      n_max = or_old p.server.n_max c.server.n_max;
      temp = or_old p.server.temp c.server.temp;
      top_k = or_old p.server.top_k c.server.top_k;
      extra_args = or_old p.server.extra_args c.server.extra_args;
    };
    daemon = record {
      bin = or_old p.daemon.bin c.daemon.bin;
      draft_model = or_old p.daemon.draft_model c.daemon.draft_model;
      target_model = or_old p.daemon.target_model c.daemon.target_model;
      host = or_old p.daemon.host c.daemon.host;
      grpc_port = or_old p.daemon.grpc_port c.daemon.grpc_port;
      threads = or_old p.daemon.threads c.daemon.threads;
      ctx_size = or_old p.daemon.ctx_size c.daemon.ctx_size;
      extra_args = or_old p.daemon.extra_args c.daemon.extra_args;
    };
  }

module _ {N : Type 0} (p : Preset N) (s : AppState N) (c : DashboardConfig N) where
  apply_preset_found :
      s.config ≡ some c
      → find_preset p.id s.presets ≡ some p
      → apply_preset p.id s ≡ record s { config = some (chosen p c); dirty = true }
  unfolding apply_preset merge_server merge_daemon
  apply_preset_found h k = rw (h, k) refl

  -- The click merges the preset into the form and marks the form as edited.
  pub click_preset_found :
      s.config ≡ some c
      → find_preset p.id s.presets ≡ some p
      → (click_preset p s).0 ≡ record s { config = some (chosen p c); dirty = true }
  unfolding click_preset
  click_preset_found h k = apply_preset_found h k
