-- ===== src/Types.antt =====
-- The shapes that the console's parts exchange (tools/llama-dspark-test-ui/lib/types.ts).
-- `null` is `none`. A number that a user types into a form may be any JavaScript number, so the
-- numeric settings have an abstract type `N`.
use dspark_edge.Base.{ℕ, Bool, Option, ◌≡◌, arith}
use dspark_edge.Base.Text.{Text}

pub data ProcId : Type 0 where
  server daemon : ProcId

pub data ProcState : Type 0 where
  stopped starting running exited error : ProcState

-- "on" | "off"
pub data FlashAttn : Type 0 where
  on off : FlashAttn

pub record ProcStatus : Type 0 where
  pub id : ProcId
  pub state : ProcState
  pub pid : Option ℕ
  pub started_at : Option ℕ
  pub exited_at : Option ℕ
  pub exit_code : Option ℕ
  pub signal : Option Text
  pub command : Option Text
  pub error : Option Text

pub data Stream : Type 0 where
  stdout stderr system : Stream

pub record LogLine : Type 0 where
  pub id : ℕ
  pub proc : ProcId
  pub stream : Stream
  pub text : Text
  pub ts : ℕ

-- A `Record<ProcId, ProcStatus>`.
pub record Statuses : Type 0 where
  pub server : ProcStatus
  pub daemon : ProcStatus

-- `status[id]`
abbrev pub status_in : Statuses → ProcId → ProcStatus
status_in s server = s.server
status_in s daemon = s.daemon

pub record ServerConfig (N : Type 0) : Type 0 where
  pub bin : Text
  pub target_model : Text
  pub host : Text
  pub http_port : N
  pub ctx_size : N
  pub n_gpu_layers : N
  pub flash_attn : FlashAttn
  pub parallel : N
  pub remote_spec : Bool
  pub grpc_target : Text
  pub n_max : N
  pub temp : N
  pub top_k : N
  pub extra_args : Text

pub record DaemonConfig (N : Type 0) : Type 0 where
  pub bin : Text
  pub draft_model : Text
  pub target_model : Text
  pub host : Text
  pub grpc_port : N
  pub threads : N
  pub ctx_size : N
  pub extra_args : Text

pub record DashboardConfig (N : Type 0) : Type 0 where
  pub server : ServerConfig N
  pub daemon : DaemonConfig N
  pub active_preset : Text

-- `Partial<ServerConfig>` and `Partial<DaemonConfig>`: a missing key is `none`.
pub record ServerPatch (N : Type 0) : Type 0 where
  pub bin : Option Text
  pub target_model : Option Text
  pub host : Option Text
  pub http_port : Option N
  pub ctx_size : Option N
  pub n_gpu_layers : Option N
  pub flash_attn : Option FlashAttn
  pub parallel : Option N
  pub remote_spec : Option Bool
  pub grpc_target : Option Text
  pub n_max : Option N
  pub temp : Option N
  pub top_k : Option N
  pub extra_args : Option Text

pub record DaemonPatch (N : Type 0) : Type 0 where
  pub bin : Option Text
  pub draft_model : Option Text
  pub target_model : Option Text
  pub host : Option Text
  pub grpc_port : Option N
  pub threads : Option N
  pub ctx_size : Option N
  pub extra_args : Option Text

pub record Preset (N : Type 0) : Type 0 where
  pub id : Text
  pub label : Text
  pub arch : Text
  pub blurb : Text
  pub server : ServerPatch N
  pub daemon : DaemonPatch N

pub record PathsInfo : Type 0 where
  pub repo_root : Text
  pub build_dir : Text
  pub models_dir : Text
  pub server_bin : Text
  pub daemon_bin : Text
  pub server_bin_exists : Bool
  pub daemon_bin_exists : Bool

pub record ModelEntry : Type 0 where
  pub name : Text
  pub path : Text
  pub size_bytes : ℕ

unfoldable pub same_proc : ProcId → ProcId → Bool
same_proc server server = Bool.true
same_proc daemon daemon = Bool.true
same_proc _ _ = Bool.false

pub same_proc_iff : (a b : ProcId) → same_proc a b ≡ Bool.true → a ≡ b
unfolding same_proc
same_proc_iff a b h = ground arith
