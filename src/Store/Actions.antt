-- ===== src/Store/Actions.antt =====
-- Any sequence of the store's actions, as React's components and the live stream run them.
use dspark_edge.Base.{ℕ, Option, List, [], ◌∷◌}
use dspark_edge.Base.Text.{Text}
use dspark_edge.Numbers.{Numbers}
use dspark_edge.Types.{
  ProcStatus, Statuses, LogLine, DashboardConfig, ServerPatch, DaemonPatch, Preset, PathsInfo,
  ModelEntry,
}
use dspark_edge.Store.{
  ActionName, SpecResponse, AppState, ActionReply, init_done, patch_server, patch_daemon,
  apply_preset, persist_done, refresh_models_done, run_action_begin, run_action_end,
  poll_status_done, poll_spec_done, append_log, set_backlog, set_status, clear_logs,
}

pub data Action (N : Type 0) : Type 0 where
  inits : DashboardConfig N → List (Preset N) → PathsInfo → Action N
  patches_server : ServerPatch N → Action N
  patches_daemon : DaemonPatch N → Action N
  presets : Text → Action N
  persisted : Action N
  models : Text → List ModelEntry → Action N
  begins : ActionName → Action N
  ends : ActionName → ActionReply → Action N
  polled_status : Option Statuses → Action N
  polled_spec : Text → ℕ → Option (SpecResponse N) → Action N
  logged : LogLine → Action N
  backlog : List LogLine → Statuses → Action N
  status : ProcStatus → Action N
  clears : Action N

module _ {N : Type 0} (num : Numbers N) where
  unfoldable pub act : Action N → AppState N → AppState N
  act (inits config ps paths) s = init_done config ps paths s
  act (patches_server p) s = patch_server p s
  act (patches_daemon p) s = patch_daemon p s
  act (presets id) s = apply_preset id s
  act persisted s = persist_done s
  act (models dir found) s = refresh_models_done dir found s
  act (begins a) s = (run_action_begin a s).0
  act (ends a reply) s = (run_action_end a reply s).0
  act (polled_status st) s = poll_status_done st s
  act (polled_spec t now r) s = poll_spec_done num t now r s
  act (logged line) s = append_log line s
  act (backlog lines st) s = set_backlog lines st s
  act (status st) s = set_status st s
  act clears s = clear_logs s

  unfoldable pub act_all : List (Action N) → AppState N → AppState N
  act_all [] s = s
  act_all (a ∷ rest) s = act_all rest (act a s)

  module _ (P : AppState N → Type 0)
      (keeps : (a : Action N) (s : AppState N) → P s → P (act a s)) where
    pub act_all_induction : (acts : List (Action N)) (s : AppState N) → P s → P (act_all acts s)
    unfolding act_all
    act_all_induction [] s h = h
    act_all_induction (a ∷ rest) s h = act_all_induction rest (act a s) (keeps a s h)
