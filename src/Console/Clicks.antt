-- ===== src/Console/Clicks.antt =====
-- A click of Start, and a click of Stop, seen from the browser.
use dspark_edge.Base.{
  ℕ, ◌≡◌, refl, sym, subst, All, ap, ◌∙◌, Bool, true, false, Option, none, some, inl, inr, List, [],
  ◌∷◌, ◌++◌, length,
}
use dspark_edge.Base.Text.{Text, lit}
use dspark_edge.Numbers.{Numbers}
use dspark_edge.Types.{ProcId, server, daemon, Statuses, status_in, running, DashboardConfig}
use dspark_edge.Config.{Json}
use dspark_edge.Process.{
  Env, Child, child, proc, status_of, busy, command_line, to_child, exit_state,
}
use dspark_edge.Process.Lifecycle.{core}
use dspark_edge.Store.Actions.{Action}
use dspark_edge.World.{World, run, exits, stop}
use dspark_edge.Panels.{start_action, stop_action}
use dspark_edge.Api.Actions.{Timeline, statuses}
use dspark_edge.Api.Actions.Ready.{bin_of, args_of, started_manager, perform_ready}
use dspark_edge.Api.Actions.Stopped.{perform-stop_action, stopped_world, stop_exits}
use dspark_edge.World.Stops.{IsSettledAt}
use dspark_edge.World.Silent.{silent, IsExit, Alike, Alike-refl, run-Alike}
use dspark_edge.Console.{Console, click}
use dspark_edge.Console.Laws.{click-Shows}

pub core-status_in :
    (w : World) (s : Statuses) (id : ProcId)
    → s ≡ statuses w
    → status_in s id ≡ (core w.manager id).status
unfolding core
core-status_in w s server h = rw h refl
core-status_in w s daemon h = rw h refl

module _ {N : Type 0} (num : Numbers N) (json : Json N) (written : Bool) (t : Timeline)
    (during : List (Action N)) (id : ProcId) (cfg : DashboardConfig N) (c : Console N) where
  -- A click of Start on an idle process whose binary is there and whose spawn gives a child, whose
  -- response arrives before anything more happens in the manager, ends well, and the browser shows
  -- the process as running, with the child's pid, the command line of the settings, and neither an
  -- error nor marks of an earlier exit.
  pub click_start_runs :
      (ch : Child)
      → c.state.config ≡ some cfg
      → busy (proc c.world.manager id) ≡ false
      → t.first.exists (bin_of id cfg) ≡ true
      → t.first.spawn (bin_of id cfg) (args_of num.text id cfg) ≡ child ch
      → let (c', result) = click num json written t during (start_action id) c in
        (result.ok ≡ true)
        × (status_in c'.state.status id ≡ record (core c.world.manager id).status {
          state = running;
          pid = ch.pid;
          started_at = some t.first.now;
          exited_at = none;
          exit_code = none;
          signal = none;
          command = some (command_line (bin_of id cfg) (args_of num.text id cfg));
          error = none;
        })
  click_start_runs ch h idle there spawned =
      let (ran, now) = perform_ready num.text t id cfg c.world ch idle there spawned in
      let (world, file, shows) = click-Shows num json written t during (start_action id) cfg c h in
      let w' : World = record c.world { manager = started_manager num.text t id cfg c.world } in
      let told = rw ran at shows in
      (
        elim told.3 [ inl fine ↦ fine.1 | inr (msg, why, bad, text) ↦ absurd (cc) ],
        core-status_in w' _ id told.0 ∙ ap (λ k. k.status) now,
      )

  -- A click of Stop on a running process whose child exits while the answer is awaited, with
  -- nothing else than output of the children in the meantime, no timer in particular, and whose
  -- response arrives before anything more happens in the manager, ends well: the wait is over, the
  -- child got SIGINT and no other signal, and the browser shows the process as exited or failed by
  -- its code and signal, with those, without a pid.
  pub click_stop_exits :
      (e : Env) (ch : Child) (pid : ℕ) (code : Option ℕ) (signal : Option Text)
      → c.state.config ≡ some cfg
      → (proc c.world.manager id).child ≡ some ch
      → (status_of c.world.manager id).pid ≡ some pid
      → silent t.meanwhile ≡ (e, exits id ch.handle code signal) ∷ []
      → let (c', result) = click num json written t during (stop_action id) c in
        (result.ok ≡ true)
        × (c'.world.manager.sent ≡ c.world.manager.sent ++ to_child ch (lit "SIGINT") ∷ [])
        × (IsSettledAt (length c.world.waits) c'.world.waits)
        × (status_in c'.state.status id ≡ record (core c.world.manager id).status {
          state = exit_state code signal;
          pid = none;
          exited_at = some e.now;
          exit_code = code;
          signal = signal;
        })
  click_stop_exits e ch pid code signal h held known gone =
      let alone : World = stopped_world t.first e id ch pid code signal c.world in
      let w' : World = run t.meanwhile (stop t.first id c.world) in
      let alike : Alike w' alone =
        subst (λ evs. Alike w' (run evs (stop t.first id c.world))) gone
          (run-Alike t.meanwhile (stop t.first id c.world) (stop t.first id c.world)
            (subst (All IsExit) (sym gone) (tt, tt)) (Alike-refl (stop t.first id c.world))) in
      let ran = perform-stop_action num.text t id cfg c.world in
      let (sent, over, now) = stop_exits t.first e id ch pid code signal c.world held known in
      let (world, file, shows) = click-Shows num json written t during (stop_action id) cfg c h in
      let told = rw ran at shows in
      (
        elim told.3 [ inl fine ↦ fine.1 | inr (msg, why, bad, text) ↦ absurd (cc) ],
        rw (world, ran) (alike.sent ∙ sent),
        rw (world, ran, alike.waits) over,
        core-status_in w' _ id told.0 ∙ ap (λ k. k.status) (alike.cores id ∙ now),
      )
