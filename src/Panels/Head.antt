-- ===== src/Panels/Head.antt =====
-- The header (tools/llama-dspark-test-ui/components/dashboard/header.tsx) and the status badge
-- (status-badge.tsx).
use dspark_edge.Base.{
  Bool, false, ◌&&◌, Option, none, some, List, [], ◌∷◌, ◌++◌, length, if◌then◌else◌,
}
use dspark_edge.Base.Text.{Text, lit, text_eq, join, decimal}
use dspark_edge.Types.{ProcState, PathsInfo}
use dspark_edge.Store.{AppState}
use dspark_edge.Panels.{missing_binaries, state_meta}
use dspark_edge.Panels.Chart.{or_default}

-- `resolvedTheme === "dark"`
abbrev pub is_dark : Option Text → Bool
is_dark none = false
is_dark (some t) = text_eq t (lit "dark")

-- `ThemeToggle`: the theme that a click sets, and whether the icon is the moon.
pub toggle_theme : Option Text → Text
toggle_theme resolved = if is_dark resolved then lit "light" else lit "dark"

pub shows_moon : (mounted : Bool) → Option Text → Bool
shows_moon mounted resolved = mounted && is_dark resolved

-- `StatusBadge`: its text, and whether its dot pulses.
pub record Badge : Type 0 where
  pub text : Text
  pub pulse : Bool

pub status_badge : ProcState → Option Text → Badge
status_badge state label =
    let (meta_label, pulse) = state_meta state in
    record { text = or_default label meta_label; pulse = pulse }

-- `MiniStatus`: a label, and whether the dot beside it pulses.
pub mini_status : ProcState → Text → Text × Bool
mini_status state label = let (meta_label, pulse) = state_meta state in (label, pulse)

-- The warning and its tooltip.
pub record Warning : Type 0 where
  pub text : Text
  pub tip : Text

abbrev pub warning_of : PathsInfo → List Text → Option Warning
warning_of p [] = none
warning_of p (b ∷ bs) =
    let absent = b ∷ bs in
    some (record {
      text = decimal (length absent) ++ lit " binary missing";
      tip =
          lit "Not found: "
          ++ (join (lit ", ") absent
              ++ (lit ". Build with scripts/build.sh. Looked in " ++ (p.build_dir ++ lit ".")));
    })

-- `BuildWarning`
pub build_warning : Option PathsInfo → Option Warning
build_warning none = none
build_warning (some p) = warning_of p (missing_binaries (some p))

-- `Header`
pub record HeaderView : Type 0 where
  pub warning : Option Warning
  pub statuses : List (Text × Bool)

pub header_view : {N : Type 0} → AppState N → HeaderView
header_view s = record {
  warning = build_warning s.paths;
  statuses =
      mini_status s.status.server.state (lit "Server")
      ∷ mini_status s.status.daemon.state (lit "Daemon")
      ∷ [];
}
