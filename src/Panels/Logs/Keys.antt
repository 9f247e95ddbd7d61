-- ===== src/Panels/Logs/Keys.antt =====
-- The keys of the rows, which React needs to be different.
use dspark_edge.Base.{
  ℕ, ◌<◌, ◌≡◌, Option, none, some, List, [], ◌∷◌, ◌++◌, arith, map, Bool-cases, inl, inr,
}
use dspark_edge.Types.{ProcId, same_proc, LogLine}
use dspark_edge.Process.{Env, Emission}
use dspark_edge.Process.Invariant.{Rising, Rising-weaken}
use dspark_edge.Store.{AppState}
use dspark_edge.World.{initial, Event, run}
use dspark_edge.Sync.{receive_all, connect}
use dspark_edge.Sync.Keys.{shown-Rising}
use dspark_edge.Panels.{filtered}
use dspark_edge.Panels.Logs.{LogsPanel, row_of, Body, note, rows, body_of, logs_view}

-- Numbers that rise, from above `lo`.
abbrev pub Ascending : ℕ → List ℕ → Type 0
Ascending lo [] = Unit
Ascending lo (n ∷ ns) = (lo < n) × Ascending n ns

-- The keys of the rows that stand in a list, none for the note.
abbrev pub keys : Body → List ℕ
keys (note text) = []
keys (rows rs) = map (λ r. r.key) rs

Rising-filtered :
    (f : Option ProcId) (lo hi : ℕ) (ls : List LogLine)
    → Rising lo ls hi
    → Rising lo (filtered f ls) hi
unfolding filtered
Rising-filtered none lo hi ls r = r
Rising-filtered (some id) lo hi [] r = r
Rising-filtered (some id) lo hi (l ∷ ls) r =
    let rest = Rising-filtered (some id) l.id hi ls r.1 in
    elim (Bool-cases (same_proc l.proc id)) [
      | inl b ↦ rw b (r.0, rest)
      | inr b ↦ rw b (
          Rising-weaken l.id lo hi hi (filtered (some id) ls) (omega (arith, r.0)) (omega arith)
            rest)
    ]

Rising-Ascending :
    (lo hi : ℕ) (ls : List LogLine)
    → Rising lo ls hi
    → Ascending lo (map (λ r. r.key) (map row_of ls))
Rising-Ascending lo hi [] r = tt
Rising-Ascending lo hi (l ∷ ls) r = (r.0, Rising-Ascending l.id hi ls r.1)

body_of-Ascending :
    (lo hi : ℕ) (ls : List LogLine) → Rising lo ls hi → Ascending lo (keys (body_of ls))
body_of-Ascending lo hi [] r = tt
body_of-Ascending lo hi (l ∷ ls) r = Rising-Ascending lo hi (l ∷ ls) r

-- A browser that connects in any reachable world and takes in all that the manager emits during any
-- further run shows, under each filter of the logs panel, rows whose keys rise strictly: no two rows
-- of the two processes' lines have the same key, and the newest line stands last.
pub keys-Ascending :
    {N : Type 0} (before after : List (Env × Event)) (s : AppState N) (es : List Emission)
    (p : LogsPanel)
    → let m = (run before initial).manager in
      (run after (run before initial)).manager.emitted ≡ m.emitted ++ es
      → Ascending 0 (keys (logs_view p (receive_all es (connect m s)).logs).body)
unfolding logs_view
keys-Ascending before after s es p h =
    let m = (run before initial).manager in
    let m' = (run after (run before initial)).manager in
    let logs = (receive_all es (connect m s)).logs in
    body_of-Ascending 0 m'.log_seq (filtered p.filter logs)
      (Rising-filtered p.filter 0 m'.log_seq logs (shown-Rising before after s es h))
