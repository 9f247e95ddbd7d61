-- ===== src/Process/All/Laws.antt =====
-- `allLogs` merges the two rings in the order of the lines' ids.
use mathlib.Core.List.{Perm}
use dspark_edge.Base.{ℕ, ◌≡◌, true, false, ◌++◌, arith}
use dspark_edge.Base.Sorting.{sort-IsChain, sort-perm, IsChain}
use dspark_edge.Types.{LogLine}
use dspark_edge.Process.{Manager}
use dspark_edge.Process.All.{newer, by_id, all_logs}

by_id_total : (a b : LogLine) → by_id a b ≡ false → by_id b a ≡ true
by_id_total a b h = ground arith

-- The merged log is in the order of the ids, and holds exactly the lines of the two rings whose id
-- is greater than `since`, each as often as there.
pub all_logs-sorted :
    (since : ℕ) (m : Manager)
    → IsChain by_id (all_logs since m)
      × Perm (all_logs since m) (newer since (m.server.logs ++ m.daemon.logs))
unfolding all_logs
all_logs-sorted since m =
    let ls = newer since (m.server.logs ++ m.daemon.logs) in
    (sort-IsChain by_id by_id_total ls, sort-perm by_id ls)
