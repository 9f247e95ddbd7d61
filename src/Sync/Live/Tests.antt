-- ===== src/Sync/Live/Tests.antt =====
-- The live stream's component at a concrete sequence of events, and the theorem on it.
use dspark_edge.Base.{ℕ, none, List, [], ◌∷◌}
use dspark_edge.Process.{log, blank_status}
use dspark_edge.Types
use dspark_edge.Types.{Statuses}
use dspark_edge.Store
use dspark_edge.Sync.Live.{
  Live, LiveEvent, emitted, status_tick, status_reply, models_reply, spec_reply, mount,
}
use dspark_edge.Base.{some}
use dspark_edge.Samples.{sample_numbers, sample_line}

abbrev mounted : Live ℕ
mounted = mount sample_numbers Store.initial

abbrev idle : Statuses
idle = record { server = blank_status Types.server; daemon = blank_status Types.daemon }

-- A line and a tick, which are not heard, and three replies, the first being the one to `init`.
abbrev events : List (LiveEvent ℕ)
events =
    emitted (log sample_line)
    ∷ models_reply [] []
    ∷ status_tick
    ∷ spec_reply [] 5 none
    ∷ status_reply (some idle)
    ∷ []
