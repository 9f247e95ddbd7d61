-- ===== src/Console/EditLost.antt =====
-- An edit while the reply to a click is awaited.
mod Tests
use dspark_edge.Base.{◌≡◌, refl, ap, ◌∙◌, true, false, some, List, [], ◌∷◌}
use dspark_edge.Numbers.{Numbers}
use dspark_edge.Types.{DashboardConfig}
use dspark_edge.Config.{Host, Json, load_config}
use dspark_edge.Config.Laws.{Reads, load_config-save_config}
use dspark_edge.Process.{Env}
use dspark_edge.Store.{ActionName, run_action_begin}
use dspark_edge.Store.Busy.{config-run_action_begin}
use dspark_edge.Store.Actions.{Action, patches_server, act, act_all}
use dspark_edge.World.{Event}
use dspark_edge.Panels.Fields.{ServerEdit, server_edit, patch_server-server_edit}
use dspark_edge.Api.Actions.{Timeline}
use dspark_edge.Console.{Console, arrives, run_action}
use dspark_edge.Console.Laws.{run_action-Ends, run_action-config}
use dspark_edge.Console.Edited.{edited_config}

module _ {N : Type 0} (num : Numbers N) (json : Json N) (h : Host)
    (fits : DashboardConfig N → Type 0) (reads : Reads json fits) (t : Timeline)
    (later : List (Env × Event)) (a : ActionName) (cfg : DashboardConfig N) (c : Console N) where
  -- When a field of the server card is edited between a click of an action and the arrival of its
  -- response, the form then has the edit and is marked as saved, while the file, whose write goes
  -- through, is loaded as the configuration from before the edit, which is what the request carried;
  -- given that JSON can write that configuration as it is (`fits`).
  pub edit_during_click_lost :
      (e : ServerEdit N)
      → c.state.config ≡ some cfg
      → fits cfg
      → let during = patches_server (server_edit e) ∷ [] in
        let (c', result) = run_action num json (arrives later) true t during a c in
        (c'.state.config ≡ some (edited_config e cfg))
        × (c'.state.dirty ≡ false)
        × (load_config h num json c'.file ≡ cfg)
  unfolding act act_all
  edit_during_click_lost e held f =
      let during : List (Action N) = patches_server (server_edit e) ∷ [] in
      let (world, file, shows) =
        run_action-Ends num json true t during a cfg c (arrives later) held in
      let begun = config-run_action_begin a c.state ∙ held in
      (
        run_action-config num json true t during a cfg c (arrives later) held
            ∙ (patch_server-server_edit e (run_action_begin a c.state).0 cfg begun).0,
        shows.1,
        ap (load_config h num json) file
            ∙ load_config-save_config h num json fits reads cfg c.file f,
      )
