-- ===== src/Api/Settings.antt =====
-- GET and POST /api/config (tools/llama-dspark-test-ui/app/api/config/route.ts).
use dspark_edge.Base.{◌≡◌, ap, Bool, true, Option, some, List}
use dspark_edge.Base.Text.{Text}
use dspark_edge.Numbers.{Numbers}
use dspark_edge.Types.{DashboardConfig, Preset, PathsInfo}
use dspark_edge.Config.{
  Host, repo_root, build_dir, models_dir, default_server_bin, default_daemon_bin, exists, presets,
  Json, load_config, save_config,
}
use dspark_edge.Config.Laws.{Reads, load_config-save_config}
use dspark_edge.Store.{AppState, init_done}

-- The reply of GET.
pub record Settings (N : Type 0) : Type 0 where
  pub config : DashboardConfig N
  pub presets : List (Preset N)
  pub paths : PathsInfo

module _ {N : Type 0} (h : Host) (num : Numbers N) (json : Json N) where
  -- `exists_sync` is what `existsSync` gives for a path, none if it throws.
  pub get_settings : (exists_sync : Text → Option Bool) → (file : Option Text) → Settings N
  get_settings exists_sync file = record {
    config = load_config h num json file;
    presets = presets h num;
    paths = record {
      repo_root = repo_root h;
      build_dir = build_dir h;
      models_dir = models_dir h;
      server_bin = default_server_bin h;
      daemon_bin = default_daemon_bin h;
      server_bin_exists = exists (exists_sync (default_server_bin h));
      daemon_bin_exists = exists (exists_sync (default_daemon_bin h));
    };
  }

  -- The file after POST, and the configuration that it answers with.
  pub post_settings :
      (written : Bool) → DashboardConfig N → (file : Option Text) → Option Text × DashboardConfig N
  post_settings written cfg file = (save_config json written cfg file, cfg)

  -- The browser's `init` on the reply of GET.
  pub load_settings : Settings N → AppState N → AppState N
  load_settings r s = init_done r.config r.presets r.paths s

  -- A configuration that JSON can write as it is, and that POST has written, is the one that the
  -- browser holds after it is loaded anew.
  pub load_settings-post_settings :
      (fits : DashboardConfig N → Type 0) (reads : Reads json fits) (cfg : DashboardConfig N)
      (file : Option Text) (exists_sync : Text → Option Bool) (s : AppState N)
      → fits cfg
      → let file' = (post_settings true cfg file).0 in
        (load_settings (get_settings exists_sync file') s).config
        ≡ some (post_settings true cfg file).1
  unfolding get_settings post_settings load_settings init_done
  load_settings-post_settings fits reads cfg file exists_sync s f =
      ap some (load_config-save_config h num json fits reads cfg file f)
