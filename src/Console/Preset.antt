-- ===== src/Console/Preset.antt =====
-- A click on a preset, and then a click of Start.
mod Tests
use dspark_edge.Base.{◌≡◌, ap, ◌∙◌, Bool, true, false, none, some, List}
use dspark_edge.Base.Text.{Text}
use dspark_edge.Numbers.{Numbers}
use dspark_edge.Types.{ProcId, running, DashboardConfig, Preset, status_in}
use dspark_edge.Config.{Json, save_config, find_preset}
use dspark_edge.Process.{Child, child, proc, busy, command_line}
use dspark_edge.Store.Actions.{Action}
use dspark_edge.Panels.{start_action}
use dspark_edge.Panels.Notices.{click_preset}
use dspark_edge.Panels.Notices.Laws.{chosen, click_preset_found}
use dspark_edge.Api.Actions.{Timeline}
use dspark_edge.Api.Actions.Ready.{bin_of, args_of}
use dspark_edge.Console.{Console, click}
use dspark_edge.Console.Laws.{click-Shows}
use dspark_edge.Console.Clicks.{click_start_runs}

-- The console after the click on the preset.
abbrev pub preset_clicked : {N : Type 0} → Preset N → Console N → Console N
preset_clicked p c = record c { state = (click_preset p c.state).0 }

module _ {N : Type 0} (num : Numbers N) (json : Json N) (written : Bool) (t : Timeline)
    (during : List (Action N)) (id : ProcId) (p : Preset N) (cfg : DashboardConfig N)
    (c : Console N) where
  -- A click on a preset that is the first of its id in the list, and then a click of Start of
  -- either process, idle, with the preset's binary there and a spawn that gives a child, and a
  -- response that arrives before anything more happens in the manager: the process runs with the
  -- command line of the form with the settings that the preset gives in place of its own, these
  -- settings are what is written to the file, if the write goes through, and the browser shows the
  -- process as running with that command, and no edit as unsaved.
  pub preset_start_runs :
      (ch : Child)
      → c.state.config ≡ some cfg
      → find_preset p.id c.state.presets ≡ some p
      → busy (proc c.world.manager id) ≡ false
      → t.first.exists (bin_of id (chosen p cfg)) ≡ true
      → t.first.spawn (bin_of id (chosen p cfg)) (args_of num.text id (chosen p cfg)) ≡ child ch
      → let (c', result) = click num json written t during (start_action id) (preset_clicked p c) in
        (result.ok ≡ true)
        × (c'.file ≡ save_config json written (chosen p cfg) c.file)
        × ((status_in c'.state.status id).state ≡ running)
        × ((status_in c'.state.status id).pid ≡ ch.pid)
        × ((status_in c'.state.status id).command
            ≡ some (command_line (bin_of id (chosen p cfg)) (args_of num.text id (chosen p cfg))))
        × (c'.state.dirty ≡ false)
  preset_start_runs ch h listed idle there spawned =
      let held = ap (λ s. s.config) (click_preset_found p c.state cfg h listed) in
      let (fine, shown) =
        click_start_runs num json written t during id (chosen p cfg) (preset_clicked p c) ch held
          idle there spawned in
      let (world, file, shows) =
        click-Shows num json written t during (start_action id) (chosen p cfg) (preset_clicked p c)
          held in
      (
        fine,
        file,
        ap (λ st. st.state) shown,
        ap (λ st. st.pid) shown,
        ap (λ st. st.command) shown,
        shows.1,
      )
