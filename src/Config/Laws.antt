-- ===== src/Config/Laws.antt =====
-- Presets and the configuration file: the laws of config-store.ts.
use dspark_edge.Base.{◌≡◌, ◌⊎◌, inl, inr, refl, true, Option, none, some}
use dspark_edge.Base.Text.{Text, lit, text_eq}
use dspark_edge.Numbers.{Numbers}
use dspark_edge.Types.{
  ServerConfig, DaemonConfig, DashboardConfig, ServerPatch, DaemonPatch, Preset,
}
use dspark_edge.Config.{
  Host, merge_server, merge_daemon, with_preset, find_preset, empty_server, empty_daemon,
  all_server, all_daemon, presets, qwen3_gpu, gemma_cpu, apply_preset, Json, load_config,
  save_config, or_old,
}

or_old_idem : {A : Type 0} (p : Option A) (a : A) → or_old p (or_old p a) ≡ or_old p a
or_old_idem none a = refl
or_old_idem (some b) a = refl

merge_server_idem :
    {N : Type 0} (c : ServerConfig N) (p : ServerPatch N)
    → merge_server (merge_server c p) p ≡ merge_server c p
unfolding merge_server
merge_server_idem c p = λ i. record {
  bin = or_old_idem p.bin c.bin i;
  target_model = or_old_idem p.target_model c.target_model i;
  host = or_old_idem p.host c.host i;
  http_port = or_old_idem p.http_port c.http_port i;
  ctx_size = or_old_idem p.ctx_size c.ctx_size i;
  n_gpu_layers = or_old_idem p.n_gpu_layers c.n_gpu_layers i;
  flash_attn = or_old_idem p.flash_attn c.flash_attn i;
  parallel = or_old_idem p.parallel c.parallel i;
  remote_spec = or_old_idem p.remote_spec c.remote_spec i;
  grpc_target = or_old_idem p.grpc_target c.grpc_target i;
  n_max = or_old_idem p.n_max c.n_max i;
  temp = or_old_idem p.temp c.temp i;
  top_k = or_old_idem p.top_k c.top_k i;
  extra_args = or_old_idem p.extra_args c.extra_args i;
}

merge_daemon_idem :
    {N : Type 0} (c : DaemonConfig N) (p : DaemonPatch N)
    → merge_daemon (merge_daemon c p) p ≡ merge_daemon c p
unfolding merge_daemon
merge_daemon_idem c p = λ i. record {
  bin = or_old_idem p.bin c.bin i;
  draft_model = or_old_idem p.draft_model c.draft_model i;
  target_model = or_old_idem p.target_model c.target_model i;
  host = or_old_idem p.host c.host i;
  grpc_port = or_old_idem p.grpc_port c.grpc_port i;
  threads = or_old_idem p.threads c.threads i;
  ctx_size = or_old_idem p.ctx_size c.ctx_size i;
  extra_args = or_old_idem p.extra_args c.extra_args i;
}

-- The law of JSON that the file relies on: reading what was written gives every key back, for a
-- configuration that JSON can write as it is (`fits`: its numbers are finite).
pub record Reads {N : Type 0} (json : Json N) (fits : DashboardConfig N → Type 0) : Type 0 where
  pub parse-stringify :
      (cfg : DashboardConfig N)
      → fits cfg
      → json.parse (json.stringify cfg)
        ≡ some (record {
          active_preset = some cfg.active_preset;
          server = some (all_server cfg.server);
          daemon = some (all_daemon cfg.daemon);
        })

module _ {N : Type 0} (h : Host) (num : Numbers N) where
  -- A configuration that JSON can write as it is (`fits`), and that was saved, is loaded as it was,
  -- whatever the file held before.
  pub load_config-save_config :
      (json : Json N) (fits : DashboardConfig N → Type 0) (reads : Reads json fits)
      (cfg : DashboardConfig N) (file : Option Text)
      → fits cfg
      → load_config h num json (save_config json true cfg file) ≡ cfg
  unfolding load_config save_config merge_server merge_daemon all_server all_daemon
  load_config-save_config json fits reads cfg file f = rw (reads.parse-stringify cfg f)

  with_preset_idem :
      (cfg : DashboardConfig N) (id : Text) (o : Option (Preset N))
      → with_preset (with_preset cfg id o) id o ≡ with_preset cfg id o
  with_preset_idem cfg id none = refl
  with_preset_idem cfg id (some p) = λ i. record {
    server = merge_server_idem cfg.server p.server i;
    daemon = merge_daemon_idem cfg.daemon p.daemon i;
    active_preset = id;
  }

  -- Applying a preset a second time changes nothing, whether or not its id is known.
  pub apply_preset_idem :
      (cfg : DashboardConfig N) (id : Text)
      → apply_preset h num (apply_preset h num cfg id) id ≡ apply_preset h num cfg id
  unfolding apply_preset
  apply_preset_idem cfg id = with_preset_idem cfg id (find_preset id (presets h num))

  abbrev pub IsKnown : Text → Type 0
  IsKnown id = (id ≡ lit "qwen3-gpu") ⊎ (id ≡ lit "gemma-cpu")

  -- Between the two presets that there are, the one applied last leaves nothing of the other.
  pub apply_preset_last :
      (cfg : DashboardConfig N) (a b : Text)
      → IsKnown a
      → IsKnown b
      → apply_preset h num (apply_preset h num cfg a) b ≡ apply_preset h num cfg b
  unfolding apply_preset presets qwen3_gpu gemma_cpu merge_server merge_daemon empty_server
      empty_daemon text_eq lit
  apply_preset_last cfg a b (inl p) (inl q) = rw (p, q)
  apply_preset_last cfg a b (inl p) (inr q) = rw (p, q)
  apply_preset_last cfg a b (inr p) (inl q) = rw (p, q)
  apply_preset_last cfg a b (inr p) (inr q) = rw (p, q)
