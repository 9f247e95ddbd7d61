-- ===== src/Panels.antt =====
-- What the dashboard's panels derive from the store and keep themselves
-- (tools/llama-dspark-test-ui/components): launch-cards.tsx, logs-panel.tsx, header.tsx, chat-panel.tsx
-- and status-badge.tsx of dashboard/, and conversation.tsx of ai-elements/.
pub mod Laws
pub mod Fields
pub mod Chart
pub mod StatCard
pub mod Metrics
pub mod Cards
pub mod Notices
pub mod Logs
pub mod Head
pub mod Pickers
pub mod Chat
pub mod Message
mod Tests
use dspark_edge.Base.{
  ℕ, suc, ◌+◌, ◌-◌, ◌/◌, ◌%◌, Bool, true, false, not, ◌&&◌, ◌||◌, Option, none, some, List, [], ◌∷◌,
  ◌++◌, map, keep, ltb, leb, ◌==◌, if◌then◌else◌,
}
use dspark_edge.Base.Text.{Text, lit, trim, join, decimal}
use dspark_edge.Types.{
  ProcId, server, daemon, ProcState, stopped, starting, running, exited, error, ProcStatus, LogLine,
  PathsInfo, same_proc,
}
use dspark_edge.Store.{ActionName, start_server, stop_server, start_daemon, stop_daemon}
use dspark_edge.Process.{is_running}

-- Hours, minutes and seconds of a time in seconds.
pub elapsed_parts : ℕ → ℕ × ℕ × ℕ
elapsed_parts s = (s / 3600, (s % 3600) / 60, s % 60)

abbrev pub parts_text : ℕ × ℕ × ℕ → Text
parts_text (h, m, sec) =
    if ltb 0 h
    then decimal h ++ (lit "h " ++ (decimal m ++ (lit "m " ++ (decimal sec ++ lit "s"))))
    else if ltb 0 m
    then decimal m ++ (lit "m " ++ (decimal sec ++ lit "s"))
    else decimal sec ++ lit "s"

abbrev pub elapsed_at : ℕ → ℕ → Text
elapsed_at now start = if start == 0 then [] else parts_text (elapsed_parts ((now - start) / 1000))

-- `useElapsed`, on the milliseconds of the clock and of the start.
pub elapsed : ℕ → Option ℕ → Bool → Text
elapsed now none is_on = []
elapsed now (some start) false = []
elapsed now (some start) true = elapsed_at now start

abbrev pub start_action : ProcId → ActionName
start_action server = start_server
start_action daemon = start_daemon

abbrev pub stop_action : ProcId → ActionName
stop_action server = stop_server
stop_action daemon = stop_daemon

abbrev pub is_on : ProcState → Bool
is_on running = true
is_on starting = true
is_on _ = false

-- A button: the action that a click runs, and whether it is enabled.
pub record Button : Type 0 where
  pub action : ActionName
  pub enabled : Bool

-- `LaunchControls`: Restart and Stop of a process that is up, else Start.
pub launch_controls : ProcId → ProcState → (ActionName → Bool) → List Button
launch_controls id state busy =
    let starts = start_action id in
    let stops = stop_action id in
    if is_on state
    then record { action = starts; enabled = not (busy starts || busy stops) }
      ∷ record { action = stops; enabled = not (busy stops) }
      ∷ []
    else record { action = starts; enabled = not (busy starts) } ∷ []

-- The filter of the logs panel; `none` is "all".
pub filtered : Option ProcId → List LogLine → List LogLine
filtered none logs = logs
filtered (some id) logs = keep (λ l. same_proc l.proc id) logs

-- `missing` of `BuildWarning`, which is shown if there is one.
pub missing_binaries : Option PathsInfo → List Text
missing_binaries none = []
missing_binaries (some p) =
    (if p.server_bin_exists then [] else lit "llama-server" ∷ [])
    ++ (if p.daemon_bin_exists then [] else lit "llama-dspark-grpcd" ∷ [])

-- The label of a state, and whether its dot pulses.
pub state_meta : ProcState → Text × Bool
state_meta stopped = (lit "Stopped", false)
state_meta starting = (lit "Starting", true)
state_meta running = (lit "Running", true)
state_meta exited = (lit "Exited", false)
state_meta error = (lit "Error", false)

-- What `sendMessage` gets: the text, the system prompt unless it is blank, and the temperature.
pub record ChatRequest (N : Type 0) : Type 0 where
  pub text : Text
  pub system : Option Text
  pub temperature : N

abbrev pub unless_blank : Text → Option Text
unless_blank [] = none
unless_blank (c ∷ s) = some (c ∷ s)

abbrev pub request_of : {N : Type 0} → Option Text → Option Text → N → Option (ChatRequest N)
request_of none system temperature = none
request_of (some text) system temperature =
    some (record { text = text; system = system; temperature = temperature })

-- `submit` of the chat panel; a blank text sends nothing.
pub chat_submit : {N : Type 0} → Text → Text → N → Option (ChatRequest N)
chat_submit text system temperature =
    request_of (unless_blank (trim text)) (unless_blank (trim system)) temperature

-- A part of a message: text, or something else.
pub data Part : Type 0 where
  text_part : Text → Part
  other_part : Part

pub record ChatMessage : Type 0 where
  pub role : Text
  pub parts : List Part

abbrev pub part_texts : List Part → List Text
part_texts [] = []
part_texts (text_part t ∷ rest) = t ∷ part_texts rest
part_texts (other_part ∷ rest) = part_texts rest

-- `getMessageText`
pub message_text : ChatMessage → Text
message_text m = join [] (part_texts m.parts)

-- `upper` is `toUpperCase` of the first unit.
abbrev pub title_case : (ℕ → Text) → Text → Text
title_case upper [] = []
title_case upper (c ∷ s) = upper c ++ s

pub default_format : (ℕ → Text) → ChatMessage → Text
default_format upper m = lit "**" ++ (title_case upper m.role ++ (lit ":** " ++ message_text m))

-- `messagesToMarkdown` with the default format
pub messages_to_markdown : (ℕ → Text) → List ChatMessage → Text
messages_to_markdown upper messages = join (lit "\n\n") (map (default_format upper) messages)
