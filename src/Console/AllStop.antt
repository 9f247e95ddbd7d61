-- ===== src/Console/AllStop.antt =====
-- A click of Stop all, seen from the browser.
mod Tests
use dspark_edge.Base.{
  ℕ, suc, ◌≡◌, sym, subst, All, ap, ◌∙◌, Bool, true, Option, none, some, inl, inr, List, [], ◌∷◌,
  ◌++◌, length,
}
use dspark_edge.Base.Text.{Text, lit}
use dspark_edge.Numbers.{Numbers}
use dspark_edge.Types.{server, daemon, ProcStatus, DashboardConfig}
use dspark_edge.Config.{Json}
use dspark_edge.Process.{Env, Child, proc, status_of, to_child, exit_state}
use dspark_edge.Process.Lifecycle.{core}
use dspark_edge.Store.{stop_all}
use dspark_edge.Store.Actions.{Action}
use dspark_edge.World.{World, Event, run, stop}
use dspark_edge.World.Silent.{silent, IsExit, Alike, Alike-refl, run-Alike}
use dspark_edge.World.Stops.{IsSettledAt}
use dspark_edge.Api.Actions.{Timeline, accept, perform}
use dspark_edge.Api.Actions.AllStopped.{
  Exit, leaving, InEitherOrder, both, perform-stop_all, stop-both, both_stopped,
}
use dspark_edge.Console.{Console, click}
use dspark_edge.Console.Laws.{click-Shows}
use dspark_edge.Console.Clicks.{core-status_in}

-- The status of a process whose child has ended.
abbrev pub after_exit : Exit → ProcStatus → ProcStatus
after_exit x st = record st {
  state = exit_state x.code x.signal;
  pid = none;
  exited_at = some x.env.now;
  exit_code = x.code;
  signal = x.signal;
}

two_exits :
    (x y : Env × Event) (evs : List (Env × Event))
    → IsExit x
    → IsExit y
    → InEitherOrder x y evs
    → All IsExit evs
two_exits x y evs h k (inl e) = subst (All IsExit) (sym e) (h, (k, tt))
two_exits x y evs h k (inr e) = subst (All IsExit) (sym e) (k, (h, tt))

module _ {N : Type 0} (num : Numbers N) (json : Json N) (written : Bool) (t : Timeline)
    (during : List (Action N)) (cfg : DashboardConfig N) (c : Console N) where
  -- A click of Stop all, with both processes running, whose children exit in either order while the
  -- answer is awaited, with nothing else than output of the children in the meantime, no timer in
  -- particular, and whose response arrives before anything more happens in the manager, ends well:
  -- both waits are over, each child got SIGINT, the server's first, and no other signal, and the
  -- browser shows each process as exited or failed by the code and signal of its own child, without
  -- a pid.
  pub click_stop_all_exits :
      (cs cd : Child) (ps pd : ℕ) (xs xd : Exit)
      → c.state.config ≡ some cfg
      → (proc c.world.manager server).child ≡ some cs
      → (status_of c.world.manager server).pid ≡ some ps
      → (proc c.world.manager daemon).child ≡ some cd
      → (status_of c.world.manager daemon).pid ≡ some pd
      → InEitherOrder (leaving server cs xs) (leaving daemon cd xd) (silent t.meanwhile)
      → let (c', result) = click num json written t during stop_all c in
        (result.ok ≡ true)
        × (c'.world.manager.sent
            ≡ (c.world.manager.sent ++ to_child cs (lit "SIGINT") ∷ [])
              ++ to_child cd (lit "SIGINT") ∷ [])
        × IsSettledAt (length c.world.waits) c'.world.waits
        × IsSettledAt (suc (length c.world.waits)) c'.world.waits
        × (c'.state.status.server ≡ after_exit xs (core c.world.manager server).status)
        × (c'.state.status.daemon ≡ after_exit xd (core c.world.manager daemon).status)
  click_stop_all_exits cs cd ps pd xs xd h held known held' known' gone =
      let quiet = silent t.meanwhile in
      let start : World =
        both t.first cs cd ps pd xs xd c.world quiet held known held' known' gone in
      let w' : World = run t.meanwhile start in
      let alike : Alike w' (run quiet start) =
        run-Alike t.meanwhile start start
          (two_exits (leaving server cs xs) (leaving daemon cd xd) quiet tt tt gone)
          (Alike-refl start) in
      let ran =
        perform-stop_all num.text t cfg c.world
        ∙ ap (λ w. accept (run t.meanwhile w))
            (stop-both t.first cs cd ps pd xs xd c.world quiet held known held' known' gone) in
      let (sent, first, second, of_server, of_daemon) =
        both_stopped t.first cs cd ps pd xs xd c.world quiet held known held' known' gone in
      let (world, file, shows) = click-Shows num json written t during stop_all cfg c h in
      let told = rw ran at shows in
      (
        elim told.3 [ inl fine ↦ fine.1 | inr (msg, why, bad, text) ↦ absurd (cc) ],
        rw (world, ran) (alike.sent ∙ sent),
        rw (world, ran, alike.waits) first,
        rw (world, ran, alike.waits) second,
        core-status_in w' _ server told.0 ∙ ap (λ k. k.status) (alike.cores server ∙ of_server),
        core-status_in w' _ daemon told.0 ∙ ap (λ k. k.status) (alike.cores daemon ∙ of_daemon),
      )
