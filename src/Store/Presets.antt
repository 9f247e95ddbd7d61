-- ===== src/Store/Presets.antt =====
-- The browser's `applyPreset` against that of the configuration module.
use dspark_edge.Base.{◌≡◌, refl, sym, subst, none, some, Option}
use dspark_edge.Base.Text.{Text}
use dspark_edge.Numbers.{Numbers}
use dspark_edge.Types.{DashboardConfig, Preset}
use dspark_edge.Config
use dspark_edge.Config.{Host, presets, find_preset, with_preset}
use dspark_edge.Store.{AppState, apply_preset, edited, preset_edit}

edited-preset_edit :
    {N : Type 0} (id : Text) (s : AppState N) (cfg : DashboardConfig N) (found : Option (Preset N))
    → s.config ≡ some cfg
    → (edited (preset_edit id (some cfg) found) s).config ≡ some (with_preset cfg id found)
edited-preset_edit id s cfg none c = c
edited-preset_edit id s cfg (some p) c = refl

-- With the server's presets loaded, the two implementations of `applyPreset` give the same
-- configuration, for a preset id that is known and for one that is not.
pub apply_preset_agrees :
    {N : Type 0} (h : Host) (num : Numbers N) (id : Text) (s : AppState N) (cfg : DashboardConfig N)
    → s.config ≡ some cfg
    → s.presets ≡ presets h num
    → (apply_preset id s).config ≡ some (Config.apply_preset h num cfg id)
unfolding apply_preset
apply_preset_agrees h num id s cfg c p = rw (Config.apply_preset_lem) (
    subst
      (λ o.
        (edited (preset_edit id o (find_preset id s.presets)) s).config
        ≡ some (with_preset cfg id (find_preset id (presets h num))))
      (sym c)
      (subst
        (λ ps.
          (edited (preset_edit id (some cfg) (find_preset id ps)) s).config
          ≡ some (with_preset cfg id (find_preset id (presets h num))))
        (sym p) (edited-preset_edit id s cfg (find_preset id (presets h num)) c)))
