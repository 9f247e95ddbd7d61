-- ===== src/Process.antt =====
-- The process manager (tools/llama-dspark-test-ui/lib/process-manager.ts): one managed process for
-- each `ProcId`, its log ring, its status, and the handlers that the child's events run.
-- `emitted` records the calls of `emitter.emit` and `sent` the signals, both oldest first.
pub mod Lines
mod Tests
pub mod Emitted
pub mod All
pub mod States
pub mod Lifecycle
pub mod Starts
pub mod Life
pub mod Distinct
pub mod Signals
pub mod Invariant
pub mod Args
pub mod Tokenize
pub mod Ring
use dspark_edge.Base.{
  ℕ, zero, suc, ◌≡◌, Bool, true, false, ◌&&◌, ◌||◌, Option, none, some, List, [], ◌∷◌, ◌++◌, ◌-◌,
  ltb, leb, ◌==◌, if◌then◌else◌, length, drop, keep, get_elem?, set, map, inl, inr, Bool-cases,
}
use dspark_edge.Base.Text.{Text, lit, text_eq, join, decimal}
use dspark_edge.Types.{
  ProcId, server, daemon, ProcState, stopped, starting, running, exited, error, ProcStatus, Stream,
  stdout, stderr, system, LogLine, Statuses,
}
use Lines.{split_lines}

abbrev pub max_log_lines : ℕ
max_log_lines = 4000

-- A `ChildProcess`: the identity of the object, and its `pid`, missing if the spawn failed.
pub record Child : Type 0 where
  pub handle : ℕ
  pub pid : Option ℕ

pub record ManagedProc : Type 0 where
  pub child : Option Child
  pub status : ProcStatus
  pub logs : List LogLine

pub data Emission : Type 0 where
  log : LogLine → Emission
  status : ProcStatus → Emission

-- `child.kill(signal)` and `process.kill(pid, "SIGKILL")`
pub data Sent : Type 0 where
  to_child : Child → Text → Sent
  kill_pid : ℕ → Sent

pub record Manager : Type 0 where
  pub log_seq : ℕ
  pub server : ManagedProc
  pub daemon : ManagedProc
  pub emitted : List Emission
  pub sent : List Sent

-- What `spawn` does: it returns a child, or throws an error with a message.
pub data Spawned : Type 0 where
  child : Child → Spawned
  refused : Text → Spawned

-- What a call reads of its surroundings. `clock n` is the time read for log line `n`.
pub record Env : Type 0 where
  pub now : ℕ
  pub clock : ℕ → ℕ
  pub exists : Text → Bool
  pub spawn : Text → List Text → Spawned

unfoldable pub blank_status : ProcId → ProcStatus
blank_status id = record {
  id = id;
  state = stopped;
  pid = none;
  started_at = none;
  exited_at = none;
  exit_code = none;
  signal = none;
  command = none;
  error = none;
}

unfoldable pub blank_proc : ProcId → ManagedProc
unfolding blank_status
blank_proc id = record { child = none; status = blank_status id; logs = [] }

unfoldable pub new : Manager
unfolding blank_proc
new = record {
  log_seq = 0;
  server = blank_proc server;
  daemon = blank_proc daemon;
  emitted = [];
  sent = [];
}

-- `this.procs[id]`, read and written
abbrev pub proc : Manager → ProcId → ManagedProc
proc m server = m.server
proc m daemon = m.daemon

abbrev pub set_proc : Manager → ProcId → ManagedProc → Manager
set_proc m server p = record m { server = p }
set_proc m daemon p = record m { daemon = p }

abbrev pub status_of : Manager → ProcId → ProcStatus
status_of m id = (proc m id).status

abbrev pub all_status : Manager → Statuses
all_status m = record { server = m.server.status; daemon = m.daemon.status }

abbrev pub emit : Emission → Manager → Manager
emit e m = record m { emitted = m.emitted ++ e ∷ [] }

abbrev pub send : Sent → Manager → Manager
send s m = record m { sent = m.sent ++ s ∷ [] }

-- `push`, then `shift` if the ring is over its limit
unfoldable pub push_ring : List LogLine → LogLine → List LogLine
push_ring logs line =
    let grown = logs ++ line ∷ [] in
    if ltb max_log_lines (length grown) then drop 1 grown else grown

abbrev pub new_line : Env → ProcId → Stream → Manager → Text → LogLine
new_line e id stream m raw = record {
  id = suc m.log_seq;
  proc = id;
  stream = stream;
  text = raw;
  ts = e.clock (suc m.log_seq);
}

-- One round of the loop of `pushLog` on a line that is not empty.
unfoldable pub push_line : Env → ProcId → Stream → Manager → Text → Manager
unfolding push_ring
push_line e id stream m raw =
    let line = new_line e id stream m raw in
    let p = proc m id in
    emit (log line) (
      set_proc (record m { log_seq = suc m.log_seq }) id
        (record p { logs = push_ring p.logs line }))

unfoldable pub push_lines : Env → ProcId → Stream → Manager → List Text → Manager
push_lines e id stream m [] = m
push_lines e id stream m ([] ∷ rest) = push_lines e id stream m rest
push_lines e id stream m ((c ∷ raw) ∷ rest) =
    push_lines e id stream (push_line e id stream m (c ∷ raw)) rest

unfoldable pub push_log : Env → ProcId → Stream → Text → Manager → Manager
push_log e id stream text m = push_lines e id stream m (split_lines text)

-- `updateStatus`, with the patch as a function on the status
unfoldable pub update_status : ProcId → (ProcStatus → ProcStatus) → Manager → Manager
update_status id patch m =
    let p = proc m id in
    let s = patch p.status in emit (status s) (set_proc m id (record p { status = s }))

unfoldable pub set_child : ProcId → Option Child → Manager → Manager
set_child id c m = let p = proc m id in set_proc m id (record p { child = c })

unfoldable pub clear_logs : ProcId → Manager → Manager
clear_logs id m = let p = proc m id in set_proc m id (record p { logs = [] })

-- A call returns the status of the process, or throws an error with a message.
pub data Outcome : Type 0 where
  returned : ProcStatus → Outcome
  thrown : Text → Outcome

abbrev pub id_text : ProcId → Text
id_text server = lit "server"
id_text daemon = lit "daemon"

-- `${x}` of a number or null
pub number_text : Option ℕ → Text
number_text none = lit "null"
number_text (some n) = decimal n

-- `${x ?? "null"}` of a text or null
pub or_null : Option Text → Text
or_null none = lit "null"
or_null (some t) = t

pub already_running : ProcId → Option ℕ → Text
already_running id pid = id_text id ++ lit " is already running (pid " ++ number_text pid ++ lit ")"

pub not_found : Text → Text
not_found bin = lit "binary not found: " ++ bin ++ lit " — build it with scripts/build.sh"

unfoldable pub command_line : Text → List Text → Text
command_line bin args = bin ++ lit " " ++ join (lit " ") args

abbrev pub has_child : Option Child → Bool
has_child none = false
has_child (some c) = true

abbrev pub is_running : ProcState → Bool
is_running running = true
is_running _ = false

-- The first guard of `start`: `proc.child && proc.status.state === "running"`
abbrev pub busy : ManagedProc → Bool
busy p = has_child p.child && is_running p.status.state

abbrev pub failed : Text → ProcStatus → ProcStatus
failed msg s = record s { state = error; error = some msg }

abbrev pub booting : ℕ → Text → ProcStatus → ProcStatus
booting now command s = record s {
  state = starting;
  pid = none;
  started_at = some now;
  exited_at = none;
  exit_code = none;
  signal = none;
  command = some command;
  error = none;
}

-- The `try` around `spawn`, and what follows it.
unfoldable pub launch : Env → ProcId → Spawned → Manager → Manager × Outcome
launch e id (refused msg) m = (
  update_status id (failed msg) (push_log e id system (lit "spawn failed: " ++ msg) m),
  thrown msg,
)
launch e id (child c) m =
    let m' =
      update_status id (λ s. record s { state = running; pid = c.pid }) (set_child id (some c) m) in
    (m', returned (status_of m' id))

-- The part of `start` that runs once both guards have passed, up to `spawn`.
unfoldable pub boot : Env → ProcId → Text → Manager → Manager
boot e id command m =
    push_log e id system (lit "$ " ++ command)
      (update_status id (booting e.now command) (clear_logs id m))

unfoldable pub missing : Env → ProcId → Text → Manager → Manager × Outcome
missing e id bin m =
    let msg = not_found bin in
    (update_status id (failed msg) (push_log e id system (lit "error: " ++ msg) m), thrown msg)

unfoldable pub start : Env → ProcId → Text → List Text → Manager → Manager × Outcome
start e id bin args m =
    if busy (proc m id)
    then (m, thrown (already_running id (status_of m id).pid))
    else if e.exists bin
    then launch e id (e.spawn bin args) (boot e id (command_line bin args) m)
    else missing e id bin m

-- The three ways through `start`.
module _ (e : Env) (id : ProcId) (bin : Text) (args : List Text) (m : Manager) where
  pub start_busy :
      busy (proc m id) ≡ true
      → start e id bin args m ≡ (m, thrown (already_running id (status_of m id).pid))
  unfolding start
  start_busy b = rw b

  start_there :
      busy (proc m id) ≡ false
      → e.exists bin ≡ true
      → start e id bin args m ≡ launch e id (e.spawn bin args) (boot e id (command_line bin args) m)
  unfolding start
  start_there b x = rw (b, x)

  start_absent :
      busy (proc m id) ≡ false → e.exists bin ≡ false → start e id bin args m ≡ missing e id bin m
  unfolding start
  start_absent b x = rw (b, x)

  pub start_cases {ℓ} :
      (P : Manager × Outcome → Type ℓ)
      → (busy (proc m id) ≡ true → P (m, thrown (already_running id (status_of m id).pid)))
      → (busy (proc m id) ≡ false
          → e.exists bin ≡ true
          → P (launch e id (e.spawn bin args) (boot e id (command_line bin args) m)))
      → (busy (proc m id) ≡ false → e.exists bin ≡ false → P (missing e id bin m))
      → P (start e id bin args m)
  start_cases P denied launched absent = elim (Bool-cases (busy (proc m id))) [
    | inl b ↦ rw (start_busy b) (denied b)
    | inr b ↦ elim (Bool-cases (e.exists bin)) [
      | inl x ↦ rw (start_there b x) (launched b x)
      | inr x ↦ rw (start_absent b x) (absent b x)
    ]
  ]

-- The handlers that `start` attaches to the child.
unfoldable pub on_data : Env → ProcId → Stream → Text → Manager → Manager
on_data e id stream text m = push_log e id stream text m

unfoldable pub on_error : Env → ProcId → Text → Manager → Manager
on_error e id msg m =
    update_status id (failed msg) (push_log e id system (lit "process error: " ++ msg) m)

abbrev pub is_zero : Option ℕ → Bool
is_zero none = false
is_zero (some n) = n == 0

abbrev pub is_signal : Text → Option Text → Bool
is_signal t none = false
is_signal t (some s) = text_eq s t

unfoldable pub exit_state : Option ℕ → Option Text → ProcState
exit_state code signal =
    if is_zero code || is_signal (lit "SIGINT") signal || is_signal (lit "SIGTERM") signal
    then exited
    else error

pub exit_text : Option ℕ → Option Text → Text
exit_text code signal =
    lit "process exited (code=" ++ number_text code ++ lit ", signal=" ++ or_null signal ++ lit ")"

pub on_exit : Env → ProcId → Option ℕ → Option Text → Manager → Manager
on_exit e id code signal m =
    update_status id
      (λ s. record s {
        state = exit_state code signal;
        pid = none;
        exited_at = some e.now;
        exit_code = code;
        signal = signal;
      })
      (push_log e id system (exit_text code signal) (set_child id none m))
