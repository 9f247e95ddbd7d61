-- ===== src/Console/Edited.antt =====
-- An edit in the form of the server, and then a click of Start.
mod Tests
use dspark_edge.Base.{◌≡◌, ap, ◌∙◌, Bool, true, false, Option, none, some, List}
use dspark_edge.Base.Text.{Text, lit}
use dspark_edge.Numbers.{Numbers}
use dspark_edge.Types.{server, running, DashboardConfig, status_in}
use dspark_edge.Config.{Json, save_config}
use dspark_edge.Process.{Child, child, proc, busy, command_line}
use dspark_edge.Process.Args.{server_args}
use dspark_edge.Store.{patch_server, start_server}
use dspark_edge.Store.Actions.{Action}
use dspark_edge.Panels.Fields.{ServerEdit, server_edit, with_edit, patch_server-server_edit}
use dspark_edge.Api.Actions.{Timeline}
use dspark_edge.Console.{Console, click}
use dspark_edge.Console.Laws.{click-Shows}
use dspark_edge.Console.Clicks.{click_start_runs}

module _ {N : Type 0} (e : ServerEdit N) where
  -- The console after the edit, and its configuration.
  abbrev pub edited : Console N → Console N
  edited c = record c { state = patch_server (server_edit e) c.state }

  abbrev pub edited_config : DashboardConfig N → DashboardConfig N
  edited_config cfg = record cfg { server = with_edit e cfg.server }

module _ {N : Type 0} (num : Numbers N) (json : Json N) (written : Bool) (t : Timeline)
    (during : List (Action N)) (cfg : DashboardConfig N) (c : Console N) (e : ServerEdit N) where
  -- An edit of any field of the server card that is not saved by hand, and then a click of Start,
  -- with the server idle, its binary there and a spawn that gives a child, and a response that
  -- arrives before anything more happens in the manager: the server runs with the command line of
  -- the edited settings, the edited configuration is the one that is written to the file, if the
  -- write goes through, and the browser shows the server as running with that command, and no edit
  -- as unsaved.
  pub edited_start_runs :
      (ch : Child)
      → c.state.config ≡ some cfg
      → busy (proc c.world.manager server) ≡ false
      → t.first.exists (edited_config e cfg).server.bin ≡ true
      → t.first.spawn
          (edited_config e cfg).server.bin
          (server_args num.text (edited_config e cfg).server)
        ≡ child ch
      → let (c', result) = click num json written t during start_server (edited e c) in
        (result.ok ≡ true)
        × (c'.file ≡ save_config json written (edited_config e cfg) c.file)
        × (c'.state.status.server.state ≡ running)
        × (c'.state.status.server.pid ≡ ch.pid)
        × (c'.state.status.server.command
            ≡ some (
                command_line
                  (edited_config e cfg).server.bin
                  (server_args num.text (edited_config e cfg).server)))
        × (c'.state.dirty ≡ false)
  edited_start_runs ch h idle there spawned =
      let (held, unsaved) = patch_server-server_edit e c.state cfg h in
      let (fine, shown) =
        click_start_runs num json written t during server (edited_config e cfg) (edited e c) ch held
          idle there spawned in
      let (world, file, shows) =
        click-Shows num json written t during start_server (edited_config e cfg) (edited e c)
          held in
      (
        fine,
        file,
        ap (λ st. st.state) shown,
        ap (λ st. st.pid) shown,
        ap (λ st. st.command) shown,
        shows.1,
      )
