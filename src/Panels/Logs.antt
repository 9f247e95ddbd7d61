-- ===== src/Panels/Logs.antt =====
-- The logs panel (tools/llama-dspark-test-ui/components/dashboard/logs-panel.tsx): its own state, what
-- its buttons do, and the rows that it shows. The style classes are left out but for the colour of a
-- row, which depends on its line.
pub mod Keys
use dspark_edge.Base.{
  ℕ, ◌≡◌, Bool, true, false, not, Option, none, some, List, [], ◌∷◌, map, if◌then◌else◌,
}
use dspark_edge.Base.Text.{Text, lit}
use dspark_edge.Types.{ProcId, server, daemon, same_proc, Stream, stdout, stderr, system, LogLine}
use dspark_edge.Store.{AppState, clear_logs}
use dspark_edge.Panels.{filtered}

-- The panel's state; `none` is the filter "all". `top` is `scrollTop` of the list.
pub record LogsPanel : Type 0 where
  pub filter : Option ProcId
  pub auto_scroll : Bool
  pub top : ℕ

unfoldable pub new_panel : LogsPanel
new_panel = record { filter = none; auto_scroll = true; top = 0 }

pub set_filter : Option ProcId → LogsPanel → LogsPanel
set_filter f p = record p { filter = f }

pub toggle_auto_scroll : LogsPanel → LogsPanel
toggle_auto_scroll p = record p { auto_scroll = not p.auto_scroll }

-- The wheel, and where it scrolls to.
pub wheel : ℕ → LogsPanel → LogsPanel
wheel to p = record p { auto_scroll = false; top = to }

-- The effect after a change of the rows or of the mode, on the height of the list.
pub follow : (height : ℕ) → LogsPanel → LogsPanel
follow height p = if p.auto_scroll then record p { top = height } else p

-- A tab of the filter and whether it is the chosen one.
pub record Tab : Type 0 where
  pub filter : Option ProcId
  pub label : Text
  pub chosen : Bool

abbrev pub same_filter : Option ProcId → Option ProcId → Bool
same_filter none none = true
same_filter none (some j) = false
same_filter (some i) none = false
same_filter (some i) (some j) = same_proc i j

abbrev pub tab : LogsPanel → Option ProcId → Text → Tab
tab p f label = record { filter = f; label = label; chosen = same_filter p.filter f }

pub tabs : LogsPanel → List Tab
tabs p =
    tab p none (lit "All")
    ∷ tab p (some server) (lit "Server")
    ∷ tab p (some daemon) (lit "Daemon")
    ∷ []

-- A row: its key, the tag of the process and its colour, the colour of the text, and the text.
pub record Row : Type 0 where
  pub key : ℕ
  pub tag : Text
  pub tag_color : Text
  pub color : Text
  pub text : Text

abbrev pub tag_of : ProcId → Text
tag_of server = lit "srv"
tag_of daemon = lit "dmn"

-- `PROC_COLOR`
abbrev pub proc_color : ProcId → Text
proc_color server = lit "text-blue-400"
proc_color daemon = lit "text-violet-400"

abbrev pub stream_color : Stream → Text
stream_color stdout = lit "text-white/80"
stream_color stderr = lit "text-amber-300/90"
stream_color system = lit "text-emerald-300/90"

abbrev pub row_of : LogLine → Row
row_of l = record {
  key = l.id;
  tag = tag_of l.proc;
  tag_color = proc_color l.proc;
  color = stream_color l.stream;
  text = l.text;
}

-- What the list holds: a note, or rows.
pub data Body : Type 0 where
  note : Text → Body
  rows : List Row → Body

abbrev pub body_of : List LogLine → Body
body_of [] = note (lit "No output yet. Start a process to see logs stream here.")
body_of (l ∷ ls) = rows (map row_of (l ∷ ls))

-- The panel as it is shown: its tabs, the label of the scroll button, the list.
pub record LogsView : Type 0 where
  pub tabs : List Tab
  pub scroll_label : Text
  pub body : Body

pub logs_view : LogsPanel → List LogLine → LogsView
logs_view p logs = record {
  tabs = tabs p;
  scroll_label = if p.auto_scroll then lit "Auto" else lit "Manual";
  body = body_of (filtered p.filter logs);
}
