-- ===== src/Api/Actions.antt =====
-- POST /api/process (tools/llama-dspark-test-ui/app/api/process/route.ts), and `startServer` and
-- `startDaemon` of lib/process-manager.ts. While the handler waits, for a timer or for a `stop`,
-- other calls and events run: they are given as a list.
pub mod Laws
pub mod Reports
pub mod Ready
pub mod Stopped
pub mod AllStopped
use dspark_edge.Base.{ℕ, ◌≡◌, Bool, Option, none, some, List}
use dspark_edge.Base.Text.{Text}
use dspark_edge.Numbers.{Numbers}
use dspark_edge.Types.{
  ProcId, server, daemon, Statuses, ServerConfig, DaemonConfig, DashboardConfig,
}
use dspark_edge.Config.{Json, save_config}
use dspark_edge.Process.{Env, Manager, Outcome, returned, thrown, all_status, start}
use dspark_edge.Process.Args.{server_args, daemon_args}
use dspark_edge.Store.{
  ActionName, start_server, stop_server, start_daemon, stop_daemon, quickstart, stop_all,
}
use dspark_edge.World.{World, Event, stop, run}

pub data Response : Type 0 where
  accepted : Statuses → Response  -- 200, `ok: true`
  refused : Text → Statuses → Response  -- 500, `error`
  unknown_action : Response  -- 400

-- The surroundings of one request: at its start, when it goes on after a wait, and what runs in
-- between.
pub record Timeline : Type 0 where
  pub first : Env
  pub second : Env
  pub meanwhile : List (Env × Event)

abbrev pub statuses : World → Statuses
statuses w = all_status w.manager

abbrev pub accept : World → World × Response
accept w = (w, accepted (statuses w))

module _ {N : Type 0} (text : N → Text) where
  unfoldable pub start_with : Env → ProcId → DashboardConfig N → Manager → Manager × Outcome
  start_with e server cfg m = start e server cfg.server.bin (server_args text cfg.server) m
  start_with e daemon cfg m = start e daemon cfg.daemon.bin (daemon_args text cfg.daemon) m

  -- A start inside the handler's `try`: what follows it, or the `catch`.
  abbrev pub go_on : World → Manager × Outcome → (World → World × Response) → World × Response
  go_on w (m, returned s) next = next (record w { manager = m })
  go_on w (m, thrown msg) next =
      let w' = record w { manager = m } in (w', refused msg (statuses w'))

  pub try_start :
      Env → ProcId → DashboardConfig N → World → (World → World × Response) → World × Response
  try_start e id cfg w next = go_on w (start_with e id cfg w.manager) next

  -- The `switch` on the action, with a configuration.
  pub perform : Timeline → ActionName → DashboardConfig N → World → World × Response
  perform t start_server cfg w = try_start t.first server cfg w accept
  perform t stop_server cfg w = accept (run t.meanwhile (stop t.first server w))
  perform t start_daemon cfg w = try_start t.first daemon cfg w accept
  perform t stop_daemon cfg w = accept (run t.meanwhile (stop t.first daemon w))
  perform t quickstart cfg w =
      try_start t.first daemon cfg w
        (λ w'. try_start t.second server cfg (run t.meanwhile w') accept)
  perform t stop_all cfg w = accept (run t.meanwhile (stop t.first daemon (stop t.first server w)))

  -- The handler: the configuration is written first, then the action runs. `none` is an action that
  -- the `switch` does not know.
  unfoldable pub post :
      Json N
      → Bool
      → Timeline
      → Option ActionName
      → DashboardConfig N
      → Option Text × World
      → (Option Text × World) × Response
  post json written t none cfg (file, w) = ((save_config json written cfg file, w), unknown_action)
  post json written t (some a) cfg (file, w) =
      let (w', r) = perform t a cfg w in ((save_config json written cfg file, w'), r)
