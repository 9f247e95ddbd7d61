-- ===== src/Sync.antt =====
-- The live stream: the events of /api/logs (tools/llama-dspark-test-ui/app/api/logs/route.ts) as
-- the browser takes them in (components/dashboard/live-sync.tsx).
pub mod Follow
pub mod Keys
pub mod Live
pub mod Network
mod Tests
use dspark_edge.Base.{ℕ, List, [], ◌∷◌, ◌++◌}
use dspark_edge.Types.{LogLine}
use dspark_edge.Process.{Emission, log, status, Manager, all_status}
use dspark_edge.Process.All.{all_logs}
use dspark_edge.Store.{AppState, append_log, set_status, set_backlog}
use dspark_edge.Base.{take_last}

abbrev pub max_backlog : ℕ
max_backlog = 400

-- One event of the stream in the browser.
pub receive : {N : Type 0} → Emission → AppState N → AppState N
receive (log line) s = append_log line s
receive (status st) s = set_status st s

pub receive_all : {N : Type 0} → List Emission → AppState N → AppState N
receive_all [] s = s
receive_all (e ∷ es) s = receive_all es (receive e s)

-- The first event of a stream: the last 400 lines of both processes, and their status.
pub connect : {N : Type 0} → Manager → AppState N → AppState N
connect m s = set_backlog (take_last max_backlog (all_logs 0 m)) (all_status m) s
