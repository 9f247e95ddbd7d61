-- ===== src/Console/Laws.antt =====
-- What a click of an action leaves in the browser, the manager and the configuration file.
use dspark_edge.Base.{
  ◌≡◌, ◌⊎◌, refl, sym, ap, subst, Bool, true, false, none, some, List, [], inl, inr,
}
use dspark_edge.Base.Text.{Text}
use dspark_edge.Numbers.{Numbers}
use dspark_edge.Types.{DashboardConfig}
use dspark_edge.Config.{Json, save_config}
use dspark_edge.Store.{ActionName, AppState, ActionResult, run_action_begin, run_action_end, failed}
use dspark_edge.Store.Actions.{Action, act_all}
use dspark_edge.Store.Busy.{run_action_end_replied, run_action_end-failed, config-run_action_end}
use dspark_edge.World.{World, run}
use dspark_edge.Api.Actions.{Response, accepted, refused, Timeline, statuses, perform, post}
use dspark_edge.Api.Actions.Reports.{Reports, perform-Reports}
use dspark_edge.Console.{
  reply_of, Console, Delivery, unsent, broken, arrives, deliver, click_with, run_action, click,
}

-- The two ends of an action, as the browser is told of them.
abbrev pub Told : World → Response → ActionResult → Type 0
Told w r result =
    ((r ≡ accepted (statuses w)) × (result.ok ≡ true) × (result.error ≡ none))
    ⊎ ((msg : Text) × (r ≡ refused msg (statuses w))
        × (result.ok ≡ false)
        × (result.error ≡ some msg))

-- The browser after the end of an action: it shows the status of both processes, has no unsaved
-- edits, the button is free, and the result is the one that it was told.
abbrev pub Shows : {N : Type 0} → ActionName → World → Response → AppState N × ActionResult → Type 0
Shows a w r (s, result) =
    (s.status ≡ statuses w) × (s.dirty ≡ false) × (s.busy a ≡ false) × Told w r result

module _ {N : Type 0} where
  end-Shows :
      (a : ActionName) (w : World) (r : Response) (s : AppState N)
      → Reports (w, r)
      → Shows a w r (run_action_end a (reply_of r) s)
  unfolding reply_of
  end-Shows a w r s (inl h) =
      let (st, clean, idle, result) = run_action_end_replied a true none (statuses w) s in
      subst (λ x. Shows a w x (run_action_end a (reply_of x) s)) (sym h)
        (st, clean, idle, inl (refl, ap (λ x. x.ok) result, ap (λ x. x.error) result))
  end-Shows a w r s (inr (msg, h)) =
      let (st, clean, idle, result) = run_action_end_replied a false (some msg) (statuses w) s in
      subst (λ x. Shows a w x (run_action_end a (reply_of x) s)) (sym h)
        (st, clean, idle, inr (msg, refl, ap (λ x. x.ok) result, ap (λ x. x.error) result))

-- The browser after a request that failed: the result is the error, the button is free, and the
-- status and the mark of unsaved edits are as they were.
abbrev pub Missed :
    {N : Type 0} → ActionName → Text → AppState N → AppState N × ActionResult → Type 0
Missed a msg s (s', result) =
    (s'.status ≡ s.status)
    × (s'.dirty ≡ s.dirty)
    × (s'.busy a ≡ false)
    × (result.ok ≡ false)
    × (result.error ≡ some msg)

module _ {N : Type 0} (num : Numbers N) (json : Json N) (written : Bool) (t : Timeline)
    (during : List (Action N)) (a : ActionName) (cfg : DashboardConfig N) (c : Console N) where
  -- The browser when the action ends, before it takes the reply.
  abbrev pub awaiting : AppState N
  awaiting = act_all num during (run_action_begin a c.state).0

  -- How the action ends, by the way of its request.
  abbrev pub Ends : Delivery → Console N × ActionResult → Type 0
  Ends (unsent msg later) (c', result) =
      (c'.world ≡ run later c.world) × (c'.file ≡ c.file) × Missed a msg awaiting (c'.state, result)
  Ends (broken msg later) (c', result) =
      (c'.world ≡ run later (perform num.text t a cfg c.world).0)
      × (c'.file ≡ save_config json written cfg c.file)
      × Missed a msg awaiting (c'.state, result)
  Ends (arrives later) (c', result) =
      let (w, r) = perform num.text t a cfg c.world in
      (c'.world ≡ run later w)
      × (c'.file ≡ save_config json written cfg c.file)
      × Shows a w r (c'.state, result)

  deliver-Ends :
      (d : Delivery) → Ends d (deliver num json d written t a cfg (record c { state = awaiting }))
  unfolding deliver post
  deliver-Ends (unsent msg later) = (refl, refl, run_action_end-failed a msg awaiting)
  deliver-Ends (broken msg later) = (refl, refl, run_action_end-failed a msg awaiting)
  deliver-Ends (arrives later) =
      let (w, r) = perform num.text t a cfg c.world in
      (refl, refl, end-Shows a w r awaiting (perform-Reports num.text t a cfg c.world))

  -- An action with a loaded configuration ends, whatever the store does in the meantime, in one of
  -- three ways. If its response arrives, the browser shows the status of both processes as the
  -- manager had it when it responded, whatever has happened in the manager since; no edit is marked
  -- unsaved, and the result is "ok" if the action was accepted and the thrown message if it was not.
  -- If the response is lost, the action was performed all the same, but the browser's status and mark
  -- of unsaved edits stay, and the result is the error; if the request is lost, so too, and the
  -- manager has done nothing and the file is as it was. In the first two the configuration was
  -- written to the file, if the write went through. In all three the action's button is free.
  pub run_action-Ends :
      (d : Delivery)
      → c.state.config ≡ some cfg
      → Ends d (run_action num json d written t during a c)
  unfolding run_action click_with
  run_action-Ends d h =
      subst (λ o. Ends d (click_with num json d written t during a o c)) (sym h) (deliver-Ends d)

  deliver-config :
      (d : Delivery)
      → (deliver num json d written t a cfg (record c { state = awaiting })).0.state.config
        ≡ awaiting.config
  unfolding deliver post
  deliver-config (unsent msg later) = config-run_action_end a (failed msg) awaiting
  deliver-config (broken msg later) = config-run_action_end a (failed msg) awaiting
  deliver-config (arrives later) =
      config-run_action_end a (reply_of (perform num.text t a cfg c.world).1) awaiting

  -- The reply leaves the configuration of the form as the store has it by then.
  pub run_action-config :
      (d : Delivery)
      → c.state.config ≡ some cfg
      → (run_action num json d written t during a c).0.state.config ≡ awaiting.config
  unfolding run_action click_with
  run_action-config d h =
      subst (λ o. (click_with num json d written t during a o c).0.state.config ≡ awaiting.config)
        (sym h) (deliver-config d)

  -- The same for a response that arrives before anything more happens in the manager.
  pub click-Shows :
      c.state.config ≡ some cfg
      → let (c', result) = click num json written t during a c in
        let (w, r) = perform num.text t a cfg c.world in
        (c'.world ≡ w)
        × (c'.file ≡ save_config json written cfg c.file)
        × Shows a w r (c'.state, result)
  unfolding click run
  click-Shows h = run_action-Ends (arrives []) h
