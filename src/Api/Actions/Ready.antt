-- ===== src/Api/Actions/Ready.antt =====
-- The start action of a process that is ready to be started.
use dspark_edge.Base.{◌≡◌, refl, ◌∙◌, true, false, List}
use dspark_edge.Base.Text.{Text}
use dspark_edge.Types.{ProcId, server, daemon, DashboardConfig}
use dspark_edge.Process.{Env, Manager, Child, child, proc, busy, start}
use dspark_edge.Process.Lifecycle.{core, started}
use dspark_edge.Process.Starts.{start_ready}
use dspark_edge.Process.Args.{server_args, daemon_args}
use dspark_edge.World.{World}
use dspark_edge.World.Orphan.{start-started}
use dspark_edge.Panels.{start_action}
use dspark_edge.Api.Actions.{Timeline, accept, accepted, statuses, start_with, perform}
use dspark_edge.Api.Actions.Laws.{go_on-returned, perform-start_action}

-- The binary and the arguments that a process is started with.
abbrev pub bin_of : {N : Type 0} → ProcId → DashboardConfig N → Text
bin_of server cfg = cfg.server.bin
bin_of daemon cfg = cfg.daemon.bin

abbrev pub args_of : {N : Type 0} → (N → Text) → ProcId → DashboardConfig N → List Text
args_of text server cfg = server_args text cfg.server
args_of text daemon cfg = daemon_args text cfg.daemon

pub start_with-start :
    {N : Type 0} (text : N → Text) (e : Env) (id : ProcId) (cfg : DashboardConfig N) (m : Manager)
    → start_with text e id cfg m ≡ start e id (bin_of id cfg) (args_of text id cfg) m
unfolding start_with
start_with-start text e server cfg m = refl
start_with-start text e daemon cfg m = refl

module _ {N : Type 0} (text : N → Text) (t : Timeline) (id : ProcId) (cfg : DashboardConfig N)
    (w : World) where
  abbrev pub started_manager : Manager
  started_manager = (start t.first id (bin_of id cfg) (args_of text id cfg) w.manager).0

  pub perform_ready :
      (c : Child)
      → busy (proc w.manager id) ≡ false
      → t.first.exists (bin_of id cfg) ≡ true
      → t.first.spawn (bin_of id cfg) (args_of text id cfg) ≡ child c
      → let w' : World = record w { manager = started_manager } in
        (perform text t (start_action id) cfg w ≡ (w', accepted (statuses w')))
        × (core started_manager id
            ≡ started t.first (bin_of id cfg) (args_of text id cfg) c (core w.manager id))
  perform_ready c idle there spawned =
      let (s, r) =
        start_ready t.first id (bin_of id cfg) (args_of text id cfg) w.manager c idle there
          spawned in
      (
        perform-start_action text t id cfg w
            ∙ rw start_with-start (
                go_on-returned text w
                  (start t.first id (bin_of id cfg) (args_of text id cfg) w.manager) accept s r),
        start-started t.first id (bin_of id cfg) (args_of text id cfg) w.manager c idle there
            spawned,
      )
