-- ===== src/Api/Actions/Laws.antt =====
-- What the actions of the console do to the two processes.
use dspark_edge.Base.{◌≡◌, refl, sym, ap, ◌∙◌, true, false, List}
use dspark_edge.Base.Text.{Text}
use dspark_edge.Types.{ProcId, server, daemon, ProcStatus, running, DashboardConfig, Statuses}
use dspark_edge.Process.{
  Env, Manager, Child, child, Outcome, returned, thrown, proc, status_of, busy, has_child,
  already_running, start_busy,
}
use dspark_edge.Process.Lifecycle.{core}
use dspark_edge.Process.Starts.{start_ready}
use dspark_edge.Process.Args.{server_args, daemon_args}
use dspark_edge.Store.{quickstart}
use dspark_edge.World.{World, Event, initial, run}
use dspark_edge.World.Reach.{run-Inv}
use dspark_edge.Panels.{start_action}
use dspark_edge.Api.Actions.{
  Response, accepted, refused, Timeline, statuses, accept, start_with, go_on, try_start, perform,
}

module _ {N : Type 0} (text : N → Text) where
  go_on-accepted :
      (w : World) (r : Manager × Outcome) (next : World → World × Response) (w' : World)
      (st : Statuses)
      → go_on text w r next ≡ (w', accepted st)
      → (s : ProcStatus) × (r.1 ≡ returned s)
        × (next (record w { manager = r.0 }) ≡ (w', accepted st))
  go_on-accepted w (m, returned s) next w' st h = (s, refl, h)
  go_on-accepted w (m, thrown msg) next w' st h = absurd (cc)

  go_on-thrown :
      (w : World) (r : Manager × Outcome) (next : World → World × Response) (msg : Text)
      → r.1 ≡ thrown msg
      → let w' = record w { manager = r.0 } in go_on text w r next ≡ (w', refused msg (statuses w'))
  go_on-thrown w (m, returned s) next msg h = cc
  go_on-thrown w (m, thrown why) next msg h = cc

  -- Quick start is answered with success only when the daemon's start went well and, in the world
  -- that the wait left behind, the server's start did too.
  pub quickstart_ok :
      (t : Timeline) (cfg : DashboardConfig N) (w w' : World) (st : Statuses)
      → perform text t quickstart cfg w ≡ (w', accepted st)
      → let d = start_with text t.first daemon cfg w.manager in
        let between = run t.meanwhile (record w { manager = d.0 }) in
        let v = start_with text t.second server cfg between.manager in
        (a b : ProcStatus) × (d.1 ≡ returned a)
        × (v.1 ≡ returned b)
        × (w' ≡ record between { manager = v.0 })
        × (st ≡ statuses w')
  unfolding perform try_start
  quickstart_ok t cfg w w' st h =
      let d = start_with text t.first daemon cfg w.manager in
      let between = run t.meanwhile (record w { manager = d.0 }) in
      let (a, first, h') = go_on-accepted w d _ w' st h in
      let (b, second, h'') =
        go_on-accepted between (start_with text t.second server cfg between.manager) accept w' st
          h' in
      (a, b, first, second, sym (ap (λ r. r.0) h''), cc h'')

  pub go_on-returned :
      (w : World) (r : Manager × Outcome) (next : World → World × Response) (s : ProcStatus)
      → r.1 ≡ returned s
      → go_on text w r next ≡ next (record w { manager = r.0 })
  go_on-returned w (m, returned s) next s' h = refl
  go_on-returned w (m, thrown msg) next s' h = cc

  -- Quick start is answered with success when the daemon is idle, the server is idle after the wait,
  -- both binaries are there and both spawns give a child.
  pub quickstart_starts :
      (t : Timeline) (cfg : DashboardConfig N) (w : World) (c c' : Child)
      → let d = start_with text t.first daemon cfg w.manager in
        let between = run t.meanwhile (record w { manager = d.0 }) in
        let v = start_with text t.second server cfg between.manager in
        let w' = record between { manager = v.0 } in
        busy (proc w.manager daemon) ≡ false
        → t.first.exists cfg.daemon.bin ≡ true
        → t.first.spawn cfg.daemon.bin (daemon_args text cfg.daemon) ≡ child c
        → busy (proc between.manager server) ≡ false
        → t.second.exists cfg.server.bin ≡ true
        → t.second.spawn cfg.server.bin (server_args text cfg.server) ≡ child c'
        → perform text t quickstart cfg w ≡ (w', accepted (statuses w'))
  unfolding perform try_start start_with
  quickstart_starts t cfg w c c' idle there spawned idle' there' spawned' =
      let (a, first) =
        start_ready t.first daemon cfg.daemon.bin (daemon_args text cfg.daemon) w.manager c idle
          there spawned in
      let d = start_with text t.first daemon cfg w.manager in
      let between = run t.meanwhile (record w { manager = d.0 }) in
      let (b, second) =
        start_ready t.second server cfg.server.bin (server_args text cfg.server) between.manager c'
          idle' there' spawned' in
      go_on-returned w d _ a first
      ∙ go_on-returned between (start_with text t.second server cfg between.manager) accept b second

  -- If the daemon's start throws, quick start answers with that error and does nothing more: the
  -- server is not started.
  pub quickstart_refused :
      (t : Timeline) (cfg : DashboardConfig N) (w : World) (msg : Text)
      → let d = start_with text t.first daemon cfg w.manager in
        let w' = record w { manager = d.0 } in
        d.1 ≡ thrown msg → perform text t quickstart cfg w ≡ (w', refused msg (statuses w'))
  unfolding perform try_start
  quickstart_refused t cfg w msg h =
      go_on-thrown w (start_with text t.first daemon cfg w.manager) _ msg h

  pub perform-start_action :
      (t : Timeline) (id : ProcId) (cfg : DashboardConfig N) (w : World)
      → perform text t (start_action id) cfg w
        ≡ go_on text w (start_with text t.first id cfg w.manager) accept
  unfolding perform try_start
  perform-start_action t server cfg w = refl
  perform-start_action t daemon cfg w = refl

  start_with_busy :
      (e : Env) (id : ProcId) (cfg : DashboardConfig N) (m : Manager)
      → busy (proc m id) ≡ true
      → start_with text e id cfg m ≡ (m, thrown (already_running id (status_of m id).pid))
  unfolding start_with
  start_with_busy e server cfg m h = start_busy e server _ _ m h
  start_with_busy e daemon cfg m h = start_busy e daemon _ _ m h

  busy_of_running :
      (m : Manager) (id : ProcId)
      → has_child (proc m id).child ≡ true
      → (status_of m id).state ≡ running
      → busy (proc m id) ≡ true
  busy_of_running m id h k = rw (h, k)

  -- In every reachable world, the start action of a process that is running is refused, with the
  -- message that it is already running, and changes nothing: it is no restart.
  pub start_action_of_running :
      (evs : List (Env × Event)) (t : Timeline) (id : ProcId) (cfg : DashboardConfig N)
      → let w = run evs initial in
        (core w.manager id).status.state ≡ running
        → perform text t (start_action id) cfg w
          ≡ (w, refused (already_running id (core w.manager id).status.pid) (statuses w))
  unfolding core
  start_action_of_running evs t id cfg h =
      let w = run evs initial in
      let b = busy_of_running w.manager id (((run-Inv evs).states id).has_its_child h) h in
      perform-start_action t id cfg w ∙ rw (start_with_busy t.first id cfg w.manager b)
