-- ===== src/Process/All.antt =====
-- `logs` and `allLogs` of tools/llama-dspark-test-ui/lib/process-manager.ts.
pub mod Laws
pub mod Rising
use dspark_edge.Base.{ℕ, Bool, List, ◌++◌, ltb, leb, keep}
use dspark_edge.Base.Sorting.{sort}
use dspark_edge.Types.{ProcId, LogLine}
use dspark_edge.Process.{Manager, proc}

abbrev pub newer : ℕ → List LogLine → List LogLine
newer since = keep (λ l. ltb since l.id)

pub logs : ProcId → ℕ → Manager → List LogLine
logs id since m = newer since (proc m id).logs

-- The comparison of the sort: may the first line stand before the second?
abbrev pub by_id : LogLine → LogLine → Bool
by_id a b = leb a.id b.id

pub all_logs : ℕ → Manager → List LogLine
all_logs since m = sort by_id (newer since (m.server.logs ++ m.daemon.logs))
