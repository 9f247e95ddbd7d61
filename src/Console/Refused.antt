-- ===== src/Console/Refused.antt =====
-- A click that is refused, seen from the browser.
mod Tests
use dspark_edge.Base.{◌≡◌, ◌⊎◌, refl, sym, ap, subst, ◌∙◌, Bool, true, false, some, inl, inr, List}
use dspark_edge.Base.Text.{Text}
use dspark_edge.Numbers.{Numbers}
use dspark_edge.Types.{
  ProcId, ProcStatus, server, daemon, running, error, same_proc, Statuses, DashboardConfig,
}
use dspark_edge.Config.{Json, save_config}
use dspark_edge.Process.{Env, Manager, Outcome, thrown, already_running, start}
use dspark_edge.Process.Lifecycle.{
  core, Refusal, running_already, no_binary, no_spawn, start_thrown,
}
use dspark_edge.Process.Starts.{core-start_other}
use dspark_edge.Process.Args.{daemon_args}
use dspark_edge.Store.{AppState, ActionName, ActionResult, quickstart}
use dspark_edge.Store.Actions.{Action}
use dspark_edge.World.{World, Event, initial, run}
use dspark_edge.Panels.{start_action}
use dspark_edge.Api.Actions.{Response, Timeline, refused, statuses, start_with, perform}
use dspark_edge.Api.Actions.Laws.{start_action_of_running, quickstart_refused}
use dspark_edge.Console.{Console, click}
use dspark_edge.Console.Laws.{Told, click-Shows}
use dspark_edge.Console.Clicks.{core-status_in}

-- The browser is told of a refusal.
no_success :
    (w : World) (r : Response) (result : ActionResult) (msg : Text)
    → r ≡ refused msg (statuses w)
    → Told w r result
    → (result.ok ≡ false) × (result.error ≡ some msg)
no_success w r result msg h (inl fine) = absurd (cc)
no_success w r result msg h (inr (msg', why, bad, text)) = (bad, cc)

-- A start that threw: the process ran and is as it was, or it is in the state "error".
abbrev pub Fails : Manager → Manager → ProcId → Text → Type 0
Fails m m' id msg =
    ((m' ≡ m) × (msg ≡ already_running id (core m id).status.pid))
    ⊎ (((core m' id).status.state ≡ error) × ((core m' id).status.error ≡ some msg))

Refusal-Fails :
    (e : Env) (id : ProcId) (bin : Text) (args : List Text) (m : Manager) (msg : Text)
    → Refusal e id bin args m msg
    → Fails m (start e id bin args m).0 id msg
Refusal-Fails e id bin args m msg (running_already b h same) = inl (same, h)
Refusal-Fails e id bin args m msg (no_binary b x h k) =
    inr (ap (λ c. c.status.state) k, ap (λ c. c.status.error) k)
Refusal-Fails e id bin args m msg (no_spawn b x h k) =
    inr (ap (λ c. c.status.state) k, ap (λ c. c.status.error) k)

module _ {N : Type 0} (num : Numbers N) (json : Json N) (written : Bool) (t : Timeline)
    (during : List (Action N)) (cfg : DashboardConfig N) (c : Console N) where
  -- A click of the button titled "Restart", on a process that runs in a reachable world, whose
  -- response arrives before anything more happens in the manager, is no restart: the result is an
  -- error that says that the process is running already, the manager's world is as it was, so that
  -- the process goes on with the command of its start, and yet the configuration was written to the
  -- file, if the write went through, and the edits are no longer marked unsaved.
  pub click_restart_refused :
      (evs : List (Env × Event)) (id : ProcId)
      → c.state.config ≡ some cfg
      → c.world ≡ run evs initial
      → (core c.world.manager id).status.state ≡ running
      → let (c', result) = click num json written t during (start_action id) c in
        (result.ok ≡ false)
        × (result.error ≡ some (already_running id (core c.world.manager id).status.pid))
        × (c'.world ≡ c.world)
        × (c'.file ≡ save_config json written cfg c.file)
        × (c'.state.status ≡ statuses c.world)
        × (c'.state.dirty ≡ false)
  click_restart_refused evs id h reached up =
      let why = already_running id (core c.world.manager id).status.pid in
      let ran : perform num.text t (start_action id) cfg c.world
          ≡ (c.world, refused why (statuses c.world)) =
        subst
          (λ w.
            (core w.manager id).status.state ≡ running
            → perform num.text t (start_action id) cfg w
              ≡ (w, refused (already_running id (core w.manager id).status.pid) (statuses w)))
          (sym reached) (start_action_of_running num.text evs t id cfg) up in
      let (world, file, shows) = click-Shows num json written t during (start_action id) cfg c h in
      let told = rw ran at shows in
      let (bad, text) = no_success c.world _ _ why refl told.3 in
      (bad, text, world ∙ ap (λ r. r.0) ran, file, told.0, told.1)

  -- A click of Quick start whose start of the daemon throws, whose response arrives before anything
  -- more happens in the manager, is refused with that message: the server is not touched, in the
  -- manager and in the browser, and the daemon either was running already, with nothing changed at
  -- all, or is shown in the state "error" with the message.
  pub click_quickstart_refused :
      (msg : Text)
      → c.state.config ≡ some cfg
      → (start t.first daemon cfg.daemon.bin (daemon_args num.text cfg.daemon) c.world.manager).1
        ≡ thrown msg
      → let (c', result) = click num json written t during quickstart c in
        (result.ok ≡ false)
        × (result.error ≡ some msg)
        × (core c'.world.manager server ≡ core c.world.manager server)
        × (c'.state.status.server ≡ (core c.world.manager server).status)
        × (((c'.world ≡ c.world)
              × (msg ≡ already_running daemon (core c.world.manager daemon).status.pid))
            ⊎ ((c'.state.status.daemon.state ≡ error) × (c'.state.status.daemon.error ≡ some msg)))
  click_quickstart_refused msg h threw =
      let args = daemon_args num.text cfg.daemon in
      let m = c.world.manager in
      let m' = (start t.first daemon cfg.daemon.bin args m).0 in
      let w' : World = record c.world { manager = m' } in
      let ran : perform num.text t quickstart cfg c.world ≡ (w', refused msg (statuses w')) =
        unfold start_with in quickstart_refused num.text t cfg c.world msg threw in
      let other : core m' server ≡ core m server =
        core-start_other t.first daemon server cfg.daemon.bin args m (unfold same_proc in refl) in
      let (world, file, shows) = click-Shows num json written t during quickstart cfg c h in
      let told = rw ran at shows in
      let (bad, text) = no_success w' _ _ msg refl told.3 in
      let now = world ∙ ap (λ r. r.0) ran in
      let shown = core-status_in w' _ daemon told.0 in
      (
        bad,
        text,
        ap (λ w. core w.manager server) now ∙ other,
        core-status_in w' _ server told.0 ∙ ap (λ k. k.status) other,
        elim (Refusal-Fails t.first daemon cfg.daemon.bin args m msg
            (start_thrown t.first daemon cfg.daemon.bin args m msg threw)) [
              | inl (same, why) ↦ inl (now ∙ ap (λ x. record c.world { manager = x }) same, why)
              | inr (state, why) ↦
                  inr (ap (λ x. x.state) shown ∙ state, ap (λ x. x.error) shown ∙ why)
            ],
      )
