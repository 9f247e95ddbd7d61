-- ===== src/Sync/Keys.antt =====
-- The ids of the lines that a browser shows, which are the keys of the rows of
-- tools/llama-dspark-test-ui/components/dashboard/logs-panel.tsx.
use dspark_edge.Base.{
  ℕ, zero, suc, ◌≡◌, sym, ap, subst, ◌∙◌, List, [], ◌∷◌, ◌++◌, arith, length, ◌-◌, drop, take_last,
  length-take_last,
}
use dspark_edge.Types.{LogLine}
use dspark_edge.Process.{Env, Emission}
use dspark_edge.Process.Invariant.{Rising, Rising-weaken}
use dspark_edge.Process.All.{all_logs}
use dspark_edge.Process.All.Rising.{all_logs-Rising}
use dspark_edge.Process.Emitted.{lines_of, base-IsFollowed}
use dspark_edge.Store.{AppState, set_backlog, max_logs}
use dspark_edge.World.{initial, Event, run}
use dspark_edge.World.Reach.{run-Distinct}
use dspark_edge.World.Followed.{run-IsFollowed, run-HasIds}
use dspark_edge.Sync.{max_backlog, receive_all, connect}
use dspark_edge.Sync.Follow.{logs-receive_all}

Rising-append_list :
    (lo mid hi : ℕ) (xs ys : List LogLine)
    → Rising lo xs mid
    → Rising mid ys hi
    → Rising lo (xs ++ ys) hi
Rising-append_list lo mid hi [] ys r s = Rising-weaken mid lo hi hi ys r (omega arith) s
Rising-append_list lo mid hi (x ∷ xs) ys r s = (r.0, Rising-append_list x.id mid hi xs ys r.1 s)

Rising-drop : (lo hi n : ℕ) (ls : List LogLine) → Rising lo ls hi → Rising lo (drop n ls) hi
Rising-drop lo hi zero ls r = r
Rising-drop lo hi (suc n) [] r = r
Rising-drop lo hi (suc n) (l ∷ ls) r =
    Rising-drop lo hi n ls (Rising-weaken l.id lo hi hi ls (omega (arith, r.0)) (omega arith) r.1)

Rising-take_last :
    (lo hi n : ℕ) (ls : List LogLine) → Rising lo ls hi → Rising lo (take_last n ls) hi
Rising-take_last lo hi n ls r = Rising-drop lo hi (length ls - n) ls r

append-cancel : {A : Type 0} (xs ys zs : List A) → xs ++ ys ≡ xs ++ zs → ys ≡ zs
append-cancel [] ys zs h = h
append-cancel (x ∷ xs) ys zs h = append-cancel xs ys zs (ap (λ l. drop 1 l) h)

-- A browser that connects in any reachable world and takes in all that the manager emits during any
-- further run shows lines with rising ids, the lines of both processes together: no two rows of the
-- list have the same key, and the newest line stands last.
pub shown-Rising :
    {N : Type 0} (before after : List (Env × Event)) (s : AppState N) (es : List Emission)
    → let m = (run before initial).manager in
      let m' = (run after (run before initial)).manager in
      m'.emitted ≡ m.emitted ++ es → Rising 0 (receive_all es (connect m s)).logs m'.log_seq
unfolding connect set_backlog
shown-Rising before after s es h =
    let m = (run before initial).manager in
    let m' = (run after (run before initial)).manager in
    let v = run-IsFollowed m after (run before initial) (base-IsFollowed m (run-HasIds before)) in
    let same : v.since ≡ es = append-cancel m.emitted v.since es (sym v.emitted ∙ h) in
    let backlog = take_last max_backlog (all_logs 0 m) in
    rw (logs-receive_all es (connect m s) (length-take_last max_logs backlog)) (
      Rising-take_last 0 m'.log_seq max_logs (take_last max_logs backlog ++ lines_of es) (
        Rising-append_list 0 m.log_seq m'.log_seq (take_last max_logs backlog) (lines_of es)
          (Rising-take_last 0 m.log_seq max_logs backlog (
            Rising-take_last 0 m.log_seq max_backlog (all_logs 0 m)
              (all_logs-Rising 0 m (omega arith) (run-Distinct before))))
          (subst (λ x. Rising m.log_seq (lines_of x) m'.log_seq) same v.rising)))
