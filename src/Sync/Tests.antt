-- ===== src/Sync/Tests.antt =====
-- The theorem on the live stream at a concrete run.
use dspark_edge.Base.{ℕ, ◌≡◌, List, [], ◌∷◌, ◌++◌, none, some, take_last}
use dspark_edge.Types.{server, stdout}
use dspark_edge.Process.{Env, Emission, all_status}
use dspark_edge.Process.All.{all_logs}
use dspark_edge.Process.Emitted.{lines_of}
use dspark_edge.Store.{AppState, max_logs}
use dspark_edge.Store
use dspark_edge.World.{Event, starts, output, exits, run, initial}
use dspark_edge.Sync.{max_backlog, receive_all, connect}
use dspark_edge.Sync.Follow.{browser_follows}
use dspark_edge.Samples.{sample_env, sample_bin}

abbrev before : List (Env × Event)
before = (sample_env, starts server sample_bin []) ∷ []

abbrev after : List (Env × Event)
after =
    (sample_env, output server stdout (104 ∷ 10 ∷ []))
    ∷ (sample_env, exits server 1 (some 0) none)
    ∷ []

abbrev browser : AppState ℕ
browser = Store.initial

browser_follows_example :
    let m = (run before initial).manager in
    let m' = (run after (run before initial)).manager in
    (es : List Emission) × (m'.emitted ≡ m.emitted ++ es)
    × ((receive_all es (connect m browser)).status ≡ all_status m')
    × ((receive_all es (connect m browser)).logs
        ≡ take_last max_logs (take_last max_backlog (all_logs 0 m) ++ lines_of es))
browser_follows_example = browser_follows before after browser
