-- ===== src/Panels/Notices.antt =====
-- The control panel (tools/llama-dspark-test-ui/components/dashboard/control-panel.tsx) and the
-- notices of the launch buttons (launch-cards.tsx): what a click does and what it tells the user.
pub mod Laws
use dspark_edge.Base.{
  ◌≡◌, Bool, true, false, not, Option, none, some, List, [], ◌∷◌, ◌++◌, map, if◌then◌else◌,
}
use dspark_edge.Base.Text.{Text, lit, text_eq}
use dspark_edge.Types.{ProcId, DashboardConfig, Preset}
use dspark_edge.Process.{id_text}
use dspark_edge.Store.{
  ActionName, quickstart, stop_all, AppState, ActionResult, apply_preset, persist_request,
  persist_done,
}
use dspark_edge.Panels.{Button}

-- A toast with its title and description.
pub data Toast : Type 0 where
  message success failure : Text → Option Text → Toast

-- What `doStart` and `doStop` of a launch card tell.
pub start_notice : ProcId → ActionResult → Toast
start_notice id r =
    if r.ok
    then success (id_text id ++ lit " started") none
    else failure (lit "Could not start " ++ id_text id) r.error

pub stop_notices : ProcId → ActionResult → List Toast
stop_notices id r = if r.ok then message (id_text id ++ lit " stopped") none ∷ [] else []

-- What `quickstart` of the panel tells before its action and after it, and what `stopAll` tells.
pub quickstart_notices : ActionResult → List Toast
quickstart_notices r =
    message (lit "Launching daemon + server…")
      (some (lit "Daemon boots first, then the server handshakes over gRPC."))
    ∷ (if r.ok
        then success (lit "Stack launched") none
        else failure (lit "Quick start failed") r.error)
    ∷ []

pub stop_all_notices : ActionResult → List Toast
stop_all_notices r = if r.ok then message (lit "All processes stopped") none ∷ [] else []

-- The two buttons for all processes.
pub global_buttons : (ActionName → Bool) → List Button
global_buttons busy =
    record { action = quickstart; enabled = not (busy quickstart) }
    ∷ record { action = stop_all; enabled = not (busy stop_all) }
    ∷ []

-- A button of the preset selector, lit up if its preset is the active one.
pub record PresetButton : Type 0 where
  pub id : Text
  pub label : Text
  pub arch : Text
  pub blurb : Text
  pub lit_up : Bool

module _ {N : Type 0} where
  -- `active === p.id`, where `active` is undefined before the configuration is loaded
  abbrev pub is_active : Option (DashboardConfig N) → Text → Bool
  is_active none id = false
  is_active (some c) id = text_eq c.active_preset id

  abbrev pub preset_button : Option (DashboardConfig N) → Preset N → PresetButton
  preset_button config p = record {
    id = p.id;
    label = p.label;
    arch = p.arch;
    blurb = p.blurb;
    lit_up = is_active config p.id;
  }

  -- `PresetSelector`
  pub preset_selector : AppState N → List PresetButton
  preset_selector s = map (preset_button s.config) s.presets

  pub click_preset : Preset N → AppState N → AppState N × Toast
  click_preset p s =
      (apply_preset p.id s, message (p.label ++ lit " preset applied") (some p.blurb))

  -- The click on "Save config": what is posted, the state once the request is through, the toast.
  -- Without a configuration `persist` posts nothing and leaves the state.
  abbrev pub saved_state : Option (DashboardConfig N) → AppState N → AppState N
  saved_state none s = s
  saved_state (some c) s = persist_done s

  pub click_save : AppState N → Option (DashboardConfig N) × AppState N × Toast
  click_save s =
      let request = persist_request s in
      (request, saved_state request s, success (lit "Config saved") none)
