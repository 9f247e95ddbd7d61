-- ===== src/Panels/Laws.antt =====
-- What the panels show and allow.
use dspark_edge.Base.{
  ℕ, ◌+◌, ◌*◌, ◌<◌, ◌≡◌, refl, Bool, true, false, some, List, [], ◌∷◌, arith, length, All,
}
use dspark_edge.Types.{ProcId, server, daemon, ProcState, LogLine, same_proc}
use dspark_edge.Store.{ActionName}
use dspark_edge.Panels.{elapsed_parts, launch_controls, filtered}

-- The parts of a time make it up, and minutes and seconds stay below 60.
pub elapsed_parts-sum :
    (s : ℕ)
    → let (h, m, sec) = elapsed_parts s in (s ≡ h * 3600 + m * 60 + sec) × (m < 60) × (sec < 60)
unfolding elapsed_parts
elapsed_parts-sum s = omega arith

-- A card never offers an enabled button for an action that is under way.
pub launch_controls-enabled :
    (id : ProcId) (state : ProcState) (busy : ActionName → Bool)
    → All (λ b. b.enabled ≡ true → busy b.action ≡ false) (launch_controls id state busy)
unfolding launch_controls
launch_controls-enabled id state busy = ground arith

-- Every line is shown by exactly one of the two filters.
pub filtered-length :
    (logs : List LogLine)
    → length (filtered (some server) logs) + length (filtered (some daemon) logs) ≡ length logs
unfolding filtered same_proc
filtered-length [] = refl
filtered-length (l ∷ ls) = ground (arith, filtered-length ls)
