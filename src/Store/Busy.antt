-- ===== src/Store/Busy.antt =====
-- The busy flags of the buttons, and the mark of unsaved edits.
use dspark_edge.Base.{
  ℕ, ◌≡◌, refl, ap, ◌∙◌, Bool, true, false, Option, none, some, List, [], ◌∷◌, arith, if◌then◌else◌,
  All,
}
use dspark_edge.Base.Text.{Text}
use dspark_edge.Numbers.{Numbers}
use dspark_edge.Types.{DashboardConfig, Statuses}
use dspark_edge.Store.{
  ActionName, start_server, stop_server, start_daemon, stop_daemon, quickstart, stop_all,
  same_action, SpecStats, AppState, ActionReply, failed, replied, init_done, edited, patch_server,
  patch_daemon, apply_preset, persist_done, refresh_models_done, run_action_begin, take_status,
  after_reply, result_of, run_action_end, poll_status_done, add_point, poll_spec_done, append_log,
  set_backlog, set_status, clear_logs,
}
use dspark_edge.Store.Actions.{
  Action, inits, patches_server, patches_daemon, presets, persisted, models, begins, ends,
  polled_status, polled_spec, logged, backlog, status, clears, act, act_all,
}

pub same_action_refl : (a : ActionName) → same_action a a ≡ true
unfolding same_action
same_action_refl start_server = refl
same_action_refl stop_server = refl
same_action_refl start_daemon = refl
same_action_refl stop_daemon = refl
same_action_refl quickstart = refl
same_action_refl stop_all = refl

module _ {N : Type 0} where
  edited-busy : (o : Option (DashboardConfig N)) (s : AppState N) → (edited o s).busy ≡ s.busy
  edited-busy none s = refl
  edited-busy (some c) s = refl

  take_status-busy : (o : Option Statuses) (s : AppState N) → (take_status o s).busy ≡ s.busy
  take_status-busy none s = refl
  take_status-busy (some st) s = refl

  after_reply-busy : (r : ActionReply) (s : AppState N) → (after_reply r s).busy ≡ s.busy
  after_reply-busy (failed msg) s = refl
  after_reply-busy (replied ok err st) s = take_status-busy st s

  -- Whatever the reply is, an error or none at all included, the end of an action clears its own
  -- flag and leaves the flags of the other actions.
  pub busy-run_action_end :
      (a b : ActionName) (r : ActionReply) (s : AppState N)
      → (run_action_end a r s).0.busy b ≡ (if same_action a b then false else s.busy b)
  unfolding run_action_end
  busy-run_action_end a b r s =
      ap (λ (f : ActionName → Bool). if same_action a b then false else f b) (after_reply-busy r s)

  -- An action that begins sets its own flag, if the configuration is there, and no other.
  pub busy-run_action_begin :
      (a b : ActionName) (s : AppState N) (c : DashboardConfig N)
      → s.config ≡ some c
      → (run_action_begin a s).0.busy b ≡ (if same_action a b then true else s.busy b)
  unfolding run_action_begin
  busy-run_action_begin a b s c h = ground arith

  -- A reply with a status is taken over, and clears the mark of unsaved edits.
  pub run_action_end_replied :
      (a : ActionName) (ok : Bool) (err : Option Text) (st : Statuses) (s : AppState N)
      → let (s', result) = run_action_end a (replied ok err (some st)) s in
        (s'.status ≡ st)
        × (s'.dirty ≡ false)
        × (s'.busy a ≡ false)
        × (result ≡ result_of (replied ok err (some st)))
  unfolding run_action_end
  run_action_end_replied a ok err st s = (refl, refl, rw same_action_refl, refl)

  after_reply-config : (r : ActionReply) (s : AppState N) → (after_reply r s).config ≡ s.config
  after_reply-config (failed msg) s = refl
  after_reply-config (replied ok err none) s = refl
  after_reply-config (replied ok err (some st)) s = refl

  -- An action leaves the configuration in the browser.
  pub config-run_action_end :
      (a : ActionName) (r : ActionReply) (s : AppState N)
      → (run_action_end a r s).0.config ≡ s.config
  unfolding run_action_end
  config-run_action_end a r s = after_reply-config r s

  pub config-run_action_begin :
      (a : ActionName) (s : AppState N) → (run_action_begin a s).0.config ≡ s.config
  unfolding run_action_begin
  config-run_action_begin a s = ground arith

  -- A request that failed leaves the status and the mark of unsaved edits.
  pub run_action_end-failed :
      (a : ActionName) (msg : Text) (s : AppState N)
      → let (s', result) = run_action_end a (failed msg) s in
        (s'.status ≡ s.status)
        × (s'.dirty ≡ s.dirty)
        × (s'.busy a ≡ false)
        × (result.ok ≡ false)
        × (result.error ≡ some msg)
  unfolding run_action_end
  run_action_end-failed a msg s = (refl, refl, rw same_action_refl, refl, refl)

module _ {N : Type 0} (num : Numbers N) where
  add_point-busy :
      (t : Text) (now : ℕ) (reachable : Bool) (o : Option (SpecStats N)) (s : AppState N)
      → (add_point num t now reachable o s).busy ≡ s.busy
  add_point-busy t now reachable none s = refl
  add_point-busy t now false (some stats) s = refl
  add_point-busy t now true (some stats) s = refl

  -- The actions that begin no run of the action `a`.
  abbrev pub BeginsNo : ActionName → Action N → Type 0
  BeginsNo a (begins b) = same_action b a ≡ false
  BeginsNo a _ = Unit

  begin-idle :
      (a b : ActionName) (s : AppState N)
      → same_action b a ≡ false
      → s.busy a ≡ false
      → (run_action_begin b s).0.busy a ≡ false
  unfolding run_action_begin
  begin-idle a b s h k = ground arith

  poll_status-busy : (o : Option Statuses) (s : AppState N) → (poll_status_done o s).busy ≡ s.busy
  unfolding poll_status_done
  poll_status-busy none s = refl
  poll_status-busy (some st) s = refl

  act-idle :
      (a : ActionName) (x : Action N) (s : AppState N)
      → BeginsNo a x
      → s.busy a ≡ false
      → (act num x s).busy a ≡ false
  unfolding act init_done patch_server patch_daemon apply_preset persist_done refresh_models_done
      append_log set_backlog set_status clear_logs
  act-idle a (inits config ps paths) s n h = h
  act-idle a (patches_server p) s n h = rw edited-busy h
  act-idle a (patches_daemon p) s n h = rw edited-busy h
  act-idle a (presets id) s n h = rw edited-busy h
  act-idle a persisted s n h = h
  act-idle a (models dir found) s n h = h
  act-idle a (begins b) s n h = begin-idle a b s n h
  act-idle a (ends b reply) s n h = rw busy-run_action_end (ground arith)
  act-idle a (polled_status st) s n h = rw poll_status-busy h
  act-idle a (polled_spec t now none) s n h = unfold poll_spec_done in h
  act-idle a (polled_spec t now (some r)) s n h = unfold poll_spec_done in rw add_point-busy h
  act-idle a (logged line) s n h = h
  act-idle a (backlog lines st) s n h = h
  act-idle a (status st) s n h = h
  act-idle a clears s n h = h

  act_all-idle :
      (a : ActionName) (acts : List (Action N)) (s : AppState N)
      → All (BeginsNo a) acts
      → s.busy a ≡ false
      → (act_all num acts s).busy a ≡ false
  unfolding act_all
  act_all-idle a [] s n h = h
  act_all-idle a (x ∷ xs) s n h = act_all-idle a xs (act num x s) n.1 (act-idle a x s n.0 h)

  -- Once an action has ended, by a reply or an error, its busy flag stays clear through any actions
  -- that do not begin it anew.
  pub idle_after_end :
      (a : ActionName) (r : ActionReply) (acts : List (Action N)) (s : AppState N)
      → All (BeginsNo a) acts
      → (act_all num acts (act num (ends a r) s)).busy a ≡ false
  unfolding act
  idle_after_end a r acts s n =
      act_all-idle a acts (act num (ends a r) s) n
        (busy-run_action_end a a r s ∙ rw same_action_refl)
