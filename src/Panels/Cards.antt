-- ===== src/Panels/Cards.antt =====
-- The two launch cards (tools/llama-dspark-test-ui/components/dashboard/launch-cards.tsx): the shell
-- around a card's fields, with its buttons, its badge and its footer.
pub mod Laws
use dspark_edge.Base.{ℕ, ◌≡◌, Bool, true, false, Option, none, some, List, [], ◌∷◌, ◌++◌, take}
use dspark_edge.Base.Text.{Text, lit, decimal}
use dspark_edge.Types.{
  ProcId, server, daemon, ProcState, running, error, ProcStatus, ServerConfig, DaemonConfig,
  DashboardConfig,
}
use dspark_edge.Process.{is_running}
use dspark_edge.Store.{ActionName, AppState}
use dspark_edge.Panels.{Button, launch_controls, state_meta, elapsed}
use dspark_edge.Panels.Fields.{Field, server_card, daemon_card}

-- `status.exitCode != null ? … : "idle"`
abbrev pub exit_or_idle : Option ℕ → Text
exit_or_idle none = lit "idle"
exit_or_idle (some code) = lit "exit " ++ decimal code

-- `status.error?.slice(0, 48)`
abbrev pub error_text : Option Text → Option Text
error_text none = none
error_text (some t) = some (take 48 t)

abbrev pub footer_of : ProcState → Option ℕ → Option Text → Option ℕ → Text → Option Text
footer_of running (some pid) err code elapsed =
    some (lit "pid " ++ (decimal pid ++ (lit " · " ++ elapsed)))
footer_of error pid err code elapsed = error_text err
footer_of _ pid err code elapsed = some (exit_or_idle code)

-- The footer of a card; `none` shows nothing.
pub card_footer : ProcStatus → Text → Option Text
card_footer s elapsed = footer_of s.state s.pid s.error s.exit_code elapsed

-- `CardShell`: its titles, its buttons, the fields inside, the label of the badge and whether its dot
-- pulses, and the footer.
pub record Shell (N : Type 0) : Type 0 where
  pub title : Text
  pub subtitle : Text
  pub controls : List Button
  pub fields : List (Field N)
  pub badge : Text × Bool
  pub footer : Option Text

module _ {N : Type 0} where
  -- The shell of the process `id` at the time `now` in milliseconds.
  pub card_shell :
      ProcId → Text → Text → List (Field N) → ProcStatus → (ActionName → Bool) → ℕ → Shell N
  card_shell id title subtitle fields status busy now = record {
    title = title;
    subtitle = subtitle;
    controls = launch_controls id status.state busy;
    fields = fields;
    badge = state_meta status.state;
    footer = card_footer status (elapsed now status.started_at (is_running status.state));
  }

  abbrev pub server_shell : Option (DashboardConfig N) → AppState N → ℕ → Option (Shell N)
  server_shell none s now = none
  server_shell (some cfg) s now = some (
      card_shell server (lit "Target Server") (lit "llama-server · main model")
        (server_card cfg.server) s.status.server s.busy now)

  abbrev pub daemon_shell : Option (DashboardConfig N) → AppState N → ℕ → Option (Shell N)
  daemon_shell none s now = none
  daemon_shell (some cfg) s now = some (
      card_shell daemon (lit "Edge Draft Daemon") (lit "llama-dspark-grpcd · draft model")
        (daemon_card cfg.daemon) s.status.daemon s.busy now)

  -- `ServerCard` and `DaemonCard`, which show nothing before the configuration is loaded.
  pub launch_card : ProcId → AppState N → ℕ → Option (Shell N)
  launch_card server s now = server_shell s.config s now
  launch_card daemon s now = daemon_shell s.config s now
