-- ===== src/Sync/Follow.antt =====
-- A browser on the live stream shows what the manager knows.
use dspark_edge.Base.{
  ◌≡◌, refl, sym, ap, ◌∙◌, List, [], ◌∷◌, ◌++◌, append_assoc, append-nil, length, ◌≤◌,
  length-take_last, take_last, take_last-append, take_last_of_le,
}
use dspark_edge.Process.{Env, Emission, log, status, all_status}
use dspark_edge.Process.All.{all_logs}
use dspark_edge.Process.Emitted.{replay, lines_of, base-IsFollowed}
use dspark_edge.Store.{AppState, append_log, set_status, set_backlog, max_logs}
use dspark_edge.World.{initial, Event, run}
use dspark_edge.World.Followed.{run-IsFollowed, run-HasIds}
use dspark_edge.Sync.{max_backlog, receive, receive_all, connect}

module _ {N : Type 0} where
  status-receive_all :
      (es : List Emission) (s : AppState N) → (receive_all es s).status ≡ replay es s.status
  unfolding receive_all receive append_log set_status
  status-receive_all [] s = refl
  status-receive_all (log line ∷ es) s = status-receive_all es (append_log line s)
  status-receive_all (status st ∷ es) s = status-receive_all es (set_status st s)

  pub logs-receive_all :
      (es : List Emission) (s : AppState N)
      → length s.logs ≤ max_logs
      → (receive_all es s).logs ≡ take_last max_logs (s.logs ++ lines_of es)
  unfolding receive_all receive append_log set_status
  logs-receive_all [] s h = sym (rw append-nil (take_last_of_le max_logs s.logs h))
  logs-receive_all (log line ∷ es) s h =
      logs-receive_all es (append_log line s) (length-take_last max_logs (s.logs ++ line ∷ []))
      ∙ (take_last-append max_logs (s.logs ++ line ∷ []) (lines_of es)
          ∙ ap (take_last max_logs) (append_assoc s.logs (line ∷ []) (lines_of es)))
  logs-receive_all (status st ∷ es) s h = logs-receive_all es (set_status st s) h

-- A browser that connects in any reachable world and takes in all that the manager emits during any
-- further run shows the manager's status of both processes at the end of the run, and the latest
-- 2000 of the lines of its first event followed by the lines that were emitted.
pub browser_follows :
    {N : Type 0} (before after : List (Env × Event)) (s : AppState N)
    → let m = (run before initial).manager in
      let m' = (run after (run before initial)).manager in
      (es : List Emission) × (m'.emitted ≡ m.emitted ++ es)
      × ((receive_all es (connect m s)).status ≡ all_status m')
      × ((receive_all es (connect m s)).logs
          ≡ take_last max_logs (take_last max_backlog (all_logs 0 m) ++ lines_of es))
unfolding connect set_backlog
browser_follows before after s =
    let m = (run before initial).manager in
    let v = run-IsFollowed m after (run before initial) (base-IsFollowed m (run-HasIds before)) in
    let backlog = take_last max_backlog (all_logs 0 m) in
    (
      v.since,
      v.emitted,
      status-receive_all v.since (connect m s) ∙ v.replayed,
      logs-receive_all v.since (connect m s) (length-take_last max_logs backlog)
          ∙ take_last-append max_logs backlog (lines_of v.since),
    )
