-- ===== src/Lib.antt =====
-- DSpark Studio: the control console of llama-server and the edge drafting daemon.
--
-- The console (tools/llama-dspark-test-ui) is a Next.js program. On the server side a process
-- manager starts and stops two native programs, keeps the last lines that they print and tells
-- listeners what changes; HTTP routes drive it and stream its events. In the browser a store holds
-- the configuration, the status, the logs and the metrics, and the components call its actions.
--
-- The files, and what they model (paths below tools/llama-dspark-test-ui):
--   Types      lib/types.ts. Numeric settings have an abstract type, since a form may give any
--              JavaScript number; ids, times, pids and exit codes are natural numbers.
--   Numbers    the operations on those numbers that the host gives: String, *, / and Math.round.
--   Config     lib/config-store.ts and lib/paths.ts: repoRoot to exists, defaultConfig, PRESETS,
--              applyPreset, loadConfig, saveConfig. node:path, process.env, process.cwd and JSON are
--              parameters. `{ ...base, ...patch }` is merge_server and merge_daemon, on records of
--              options.
--   Process    lib/process-manager.ts. Manager is the class: logSeq, the two ManagedProcs, what was
--              emitted and which signals were sent. start is `start`, with its ways through as boot,
--              launch and missing; on_data, on_error and on_exit are the handlers that it attaches;
--              push_log is pushLog, update_status is updateStatus. What a call reads of its
--              surroundings (the clock, existsSync, spawn) is an Env. Below it: Lines (the split of
--              pushLog), All (logs, allLogs), Args (serverArgs, daemonArgs), Tokenize
--              (tokenizeExtra), and the lemmas by what they prove.
--   World      stop of lib/process-manager.ts. A call that waits is a Wait: the child that it
--              signalled, whether its first timer is pending, whether its promise is resolved. Events
--              are calls, events of children and timers, in any order; run folds them. Keeps has
--              the induction along runs, Life and Orphan what a run does to a process that is up,
--              Shapes, Aims, Timers and Astray which child the timers of a stop reach,
--              Silent what output leaves as it is.
--   Store      lib/store.ts. An action that awaits a reply is two functions: up to the request, and
--              from the reply on, so that other actions can come between. Actions gives any sequence.
--   Sync       components/dashboard/live-sync.tsx: the events of the stream as the browser takes them;
--              Live is the component with its timers, mounted and removed; Network has the browser, one
--              connection and the manager together, with polls whose replies come late.
--   Api        the routes app/api/process, logs, models, spec, chat and config (Settings). A handler
--              that waits has a Timeline: its surroundings before and after, and the events that run
--              meanwhile. Chat is what the chat route asks of the AI SDK, whose
--              transport is a parameter.
--   Prompt     components/ai-elements/prompt-input.tsx: the attachments with the object URLs that are
--              alive, in a prompt of its own or under a provider, sources, text and submission. Accept
--              is matchesAccept and the checks before `add`, Drop the drop listeners, Keys the
--              handlers of the textarea, the submit button and the screenshot, Edits any sequence of
--              operations. nanoid and createObjectURL are parameters.
--   Console    a click from end to end: runAction of the store, POST /api/process and the manager,
--              with the actions of the store that run meanwhile. A Delivery is the way of the
--              request: lost, its response lost, or arrived. Clicks, Quick, AllStop, Edited and Preset
--              have the clicks that go well, Refused those that are refused, EditLost an edit meanwhile.
--   Panels     what the components of components/dashboard show, as data (texts, numbers, which
--              buttons are enabled), and what a click does. Fields has the forms of the cards and
--              the number field, Cards launch-cards.tsx, Notices the messages that the launch buttons
--              give and control-panel.tsx, Logs logs-panel.tsx, Head header.tsx and status-badge.tsx,
--              Pickers the other fields of fields.tsx, Chat chat-panel.tsx, StatCard stat-card.tsx,
--              Metrics metrics-panel.tsx, Chart components/tremor/area-chart.tsx. Panels itself has
--              the rest and conversation.tsx, Message message.tsx of components/ai-elements.
--   Grpcd      the options of tools/llama-dspark-grpcd/main.cpp, at the repository's root: cmdline_args
--              and parse_args.
--   Base, Samples   shared helpers, and the data of the tests.
--
-- Text is a list of UTF-16 units. The bounds are those of the program: 4000 lines in a log ring, 400
-- in the backlog, 2000 lines and 120 points in the browser. tokenize_extra runs on fuel, the length
-- of the text: each round uses up a unit, and Process/Tokenize/Fuel shows that more fuel gives no
-- other result and that the fuel is enough. walk is a recursion on the file tree.
--
-- Not modelled: style classes, animations and most icons, components/ui (a copy of the shadcn
-- components), the streaming of chat answers (done by an SDK), the lengths of the timers (their
-- events may come in any order), the C++ daemon of tools/llama-dspark-grpcd but
-- for its options, the patches of
-- llama.cpp, the scripts and the Python tests. A child process is what its events show; that it does
-- end after a signal is not assumed.
mod Base
mod Samples
pub mod Types
pub mod Numbers
pub mod Config
pub mod Store
pub mod Process
pub mod World
pub mod Console
pub mod Grpcd
pub mod Sync
pub mod Api
pub mod Prompt
pub mod Panels
