-- ===== src/Store.antt =====
-- The browser's state and its actions (tools/llama-dspark-test-ui/lib/store.ts). An action that
-- awaits a reply is two functions: what it does before the request, and with the reply.
pub mod Bounds
pub mod Actions
pub mod Busy
pub mod Presets
mod Tests
use dspark_edge.Base.{
  ℕ, suc, ◌≡◌, Bool, true, false, ◌&&◌, not, Option, none, some, List, [], ◌∷◌, ◌++◌, if◌then◌else◌,
  take_last, find,
}
use dspark_edge.Base.Text.{Text, lit, text_eq}
use dspark_edge.Numbers.{Numbers}
use dspark_edge.Types.{
  ProcId, server, daemon, ProcStatus, Statuses, LogLine, ServerConfig, DaemonConfig,
  DashboardConfig, ServerPatch, DaemonPatch, Preset, PathsInfo, ModelEntry,
}
use dspark_edge.Config.{merge_server, merge_daemon, with_preset, find_preset}
use dspark_edge.Process.{blank_status}

pub data ActionName : Type 0 where
  start_server stop_server start_daemon stop_daemon quickstart stop_all : ActionName

-- What llama-server answers on /debug/spec; a number that is missing or null is `none`.
pub record SpecStats (N : Type 0) : Type 0 where
  pub connected : Bool
  pub edge_host : Text
  pub draft_blocks : Option N
  pub draft_tokens : Option N
  pub accepted_tokens : Option N
  pub acceptance_rate : Option N
  pub avg_edge_draft_ms : Option N
  pub avg_grpc_ms : Option N
  pub fallback_steps : Option N

-- The reply of /api/spec. What `health` and `props` hold is never looked at here.
pub record SpecResponse (N : Type 0) : Type 0 where
  pub base : Text
  pub reachable : Bool
  pub spec : Option (SpecStats N)

pub record SpecPoint (N : Type 0) : Type 0 where
  pub t : Text
  pub ts : ℕ
  pub acceptance : N
  pub edge_ms : N
  pub grpc_ms : N
  pub draft_tokens : N
  pub accepted_tokens : N

abbrev pub max_history : ℕ
max_history = 120

abbrev pub max_logs : ℕ
max_logs = 2000

pub record AppState (N : Type 0) : Type 0 where
  pub loaded : Bool
  pub config : Option (DashboardConfig N)
  pub presets : List (Preset N)
  pub paths : Option PathsInfo
  pub models : List ModelEntry
  pub models_dir : Text
  pub status : Statuses
  pub spec : Option (SpecResponse N)
  pub spec_history : List (SpecPoint N)
  pub logs : List LogLine
  pub busy : ActionName → Bool
  pub dirty : Bool

pub same_action : ActionName → ActionName → Bool
same_action start_server start_server = true
same_action stop_server stop_server = true
same_action start_daemon start_daemon = true
same_action stop_daemon stop_daemon = true
same_action quickstart quickstart = true
same_action stop_all stop_all = true
same_action _ _ = false

-- `{ ...busy, [action]: b }`; an action with no entry is not busy.
abbrev pub set_busy : (ActionName → Bool) → ActionName → Bool → ActionName → Bool
set_busy busy action b a = if same_action action a then b else busy a

-- `{ ...status, [st.id]: st }`
abbrev pub put_status : ProcId → ProcStatus → Statuses → Statuses
put_status server st s = record s { server = st }
put_status daemon st s = record s { daemon = st }

-- The reply of POST /api/process, or a request or a body that failed.
pub data ActionReply : Type 0 where
  failed : Text → ActionReply
  replied : (ok : Bool) → (error : Option Text) → (status : Option Statuses) → ActionReply

-- `!data.error`
abbrev pub no_error : Option Text → Bool
no_error none = true
no_error (some []) = true
no_error (some (c ∷ t)) = false

-- What `runAction` returns.
pub record ActionResult : Type 0 where
  pub ok : Bool
  pub error : Option Text

-- The value that the `try` and the `catch` of `runAction` return.
abbrev pub result_of : ActionReply → ActionResult
result_of (failed msg) = record { ok = false; error = some msg }
result_of (replied ok err status) = record { ok = ok && no_error err; error = err }

module _ {N : Type 0} where
  unfoldable pub initial : AppState N
  initial = record {
    loaded = false;
    config = none;
    presets = [];
    paths = none;
    models = [];
    models_dir = [];
    status = record { server = blank_status server; daemon = blank_status daemon };
    spec = none;
    spec_history = [];
    logs = [];
    busy = λ a. false;
    dirty = false;
  }

  -- `init`, with the reply of GET /api/config; it then runs `refreshModels` and `pollStatus`.
  unfoldable pub init_done :
      DashboardConfig N → List (Preset N) → PathsInfo → AppState N → AppState N
  init_done config presets paths s = record s {
    config = some config;
    presets = presets;
    paths = some paths;
    loaded = true;
  }

  abbrev pub edited : Option (DashboardConfig N) → AppState N → AppState N
  edited none s = s
  edited (some c) s = record s { config = some c; dirty = true }

  abbrev pub patched_by :
      (DashboardConfig N → DashboardConfig N)
      → Option (DashboardConfig N)
      → Option (DashboardConfig N)
  patched_by f none = none
  patched_by f (some c) = some (f c)

  unfoldable pub patch_server : ServerPatch N → AppState N → AppState N
  patch_server p s =
      edited (patched_by (λ c. record c { server = merge_server c.server p }) s.config) s

  pub patch_daemon : DaemonPatch N → AppState N → AppState N
  patch_daemon p s =
      edited (patched_by (λ c. record c { daemon = merge_daemon c.daemon p }) s.config) s

  -- A preset that is found is merged in; one that is not changes nothing.
  abbrev pub preset_edit :
      Text → Option (DashboardConfig N) → Option (Preset N) → Option (DashboardConfig N)
  preset_edit id none o = none
  preset_edit id (some c) none = none
  preset_edit id (some c) (some p) = some (record c {
    active_preset = id;
    server = merge_server c.server p.server;
    daemon = merge_daemon c.daemon p.daemon;
  })

  unfoldable pub apply_preset : Text → AppState N → AppState N
  apply_preset id s = edited (preset_edit id s.config (find_preset id s.presets)) s

  -- `persist`: what is posted, and the state once the request is through.
  pub persist_request : AppState N → Option (DashboardConfig N)
  persist_request s = s.config

  pub persist_done : AppState N → AppState N
  persist_done s = record s { dirty = false }

  unfoldable pub refresh_models_done : Text → List ModelEntry → AppState N → AppState N
  refresh_models_done dir models s = record s { models = models; models_dir = dir }

  -- `runAction` up to its request; without a configuration it ends there.
  pub run_action_begin : ActionName → AppState N → AppState N × Option ActionResult
  run_action_begin action s = elim s.config [
    | none ↦ (s, some (record { ok = false; error = some (lit "config not loaded") }))
    | some c ↦ (record s { busy = set_busy s.busy action true }, none)
  ]

  abbrev pub take_status : Option Statuses → AppState N → AppState N
  take_status none s = s
  take_status (some st) s = record s { status = st; dirty = false }

  abbrev pub after_reply : ActionReply → AppState N → AppState N
  after_reply (failed msg) s = s
  after_reply (replied ok err status) s = take_status status s

  -- The rest of `runAction`, its `finally` included.
  pub run_action_end : ActionName → ActionReply → AppState N → AppState N × ActionResult
  run_action_end action reply s =
      let s' = after_reply reply s in
      (record s' { busy = set_busy s'.busy action false }, result_of reply)

  -- `pollStatus`: a request that failed is ignored.
  unfoldable pub poll_status_done : Option Statuses → AppState N → AppState N
  poll_status_done none s = s
  poll_status_done (some st) s = record s { status = st }

  unfoldable pub append_log : LogLine → AppState N → AppState N
  append_log line s = record s { logs = take_last max_logs (s.logs ++ line ∷ []) }

  unfoldable pub set_backlog : List LogLine → Statuses → AppState N → AppState N
  set_backlog logs status s = record s { logs = take_last max_logs logs; status = status }

  unfoldable pub set_status : ProcStatus → AppState N → AppState N
  set_status st s = record s { status = put_status st.id st s.status }

  pub clear_logs : AppState N → AppState N
  clear_logs s = record s { logs = [] }

module _ {N : Type 0} (num : Numbers N) where
  -- `x ?? 0`
  abbrev pub or_zero : Option N → N
  or_zero none = num.of_nat 0
  or_zero (some x) = x

  -- `Math.round(x * scale) / unit`
  abbrev pub rounded : N → ℕ → ℕ → N
  rounded x scale unit = num.over (num.round (num.times x (num.of_nat scale))) (num.of_nat unit)

  -- The chart's point for one answer, at the time `now` whose text is `t`.
  pub spec_point : Text → ℕ → SpecStats N → SpecPoint N
  spec_point t now s = record {
    t = t;
    ts = now;
    acceptance = rounded (or_zero s.acceptance_rate) 1000 10;
    edge_ms = rounded (or_zero s.avg_edge_draft_ms) 100 100;
    grpc_ms = rounded (or_zero s.avg_grpc_ms) 100 100;
    draft_tokens = or_zero s.draft_tokens;
    accepted_tokens = or_zero s.accepted_tokens;
  }

  abbrev pub add_point : Text → ℕ → Bool → Option (SpecStats N) → AppState N → AppState N
  add_point t now reachable none s = s
  add_point t now false (some stats) s = s
  add_point t now true (some stats) s = record s {
    spec_history = take_last max_history (s.spec_history ++ spec_point t now stats ∷ []);
  }

  -- `pollSpec`, with the reply or, if the request failed, none.
  unfoldable pub poll_spec_done : Text → ℕ → Option (SpecResponse N) → AppState N → AppState N
  poll_spec_done t now none s = record s { spec = none }
  poll_spec_done t now (some r) s = add_point t now r.reachable r.spec (record s { spec = some r })
