-- ===== src/Sync/Live.antt =====
-- `LiveSync` while it is mounted and after: the stream that it opens and the two timers that it sets
-- (tools/llama-dspark-test-ui/components/dashboard/live-sync.tsx).
pub mod Laws
mod Tests
use dspark_edge.Base.{ℕ, Bool, true, false, Option, none, some, List, [], ◌∷◌, ◌++◌, if◌then◌else◌}
use dspark_edge.Base.Text.{Text}
use dspark_edge.Numbers.{Numbers}
use dspark_edge.Types.{LogLine, Statuses, DashboardConfig, Preset, PathsInfo, ModelEntry}
use dspark_edge.Process.{Emission}
use dspark_edge.Store.{
  AppState, SpecResponse, init_done, poll_spec_done, poll_status_done, set_backlog,
  refresh_models_done,
}
use dspark_edge.Sync.{receive}

-- The requests that the component has the store send.
pub data Request : Type 0 where
  get_config get_spec get_status : Request
  get_models : Text → Request

-- The store's state, whether the event source is open and the timers are set, and the requests sent.
pub record Live (N : Type 0) : Type 0 where
  pub state : AppState N
  pub stream_open : Bool
  pub spec_timer : Bool
  pub status_timer : Bool
  pub sent : List Request

-- What the browser may do: the events of the stream, the ticks of the timers, the replies to the
-- requests, and the removal of the component.
pub data LiveEvent (N : Type 0) : Type 0 where
  backlog : List LogLine → Statuses → LiveEvent N
  emitted : Emission → LiveEvent N
  spec_tick status_tick : LiveEvent N
  spec_reply : Text → ℕ → Option (SpecResponse N) → LiveEvent N
  status_reply : Option Statuses → LiveEvent N
  config_reply : DashboardConfig N → List (Preset N) → PathsInfo → LiveEvent N
  models_reply : Text → List ModelEntry → LiveEvent N
  unmounted : LiveEvent N

module _ {N : Type 0} (num : Numbers N) where
  -- The three effects when the component is mounted.
  pub mount : AppState N → Live N
  mount s = record {
    state = s;
    stream_open = true;
    spec_timer = true;
    status_timer = true;
    sent = get_config ∷ get_spec ∷ [];
  }

  -- The three functions that the effects return.
  pub unmount : Live N → Live N
  unmount l = record l { stream_open = false; spec_timer = false; status_timer = false }

  abbrev pub send : Request → Live N → Live N
  send r l = record l { sent = l.sent ++ r ∷ [] }

  -- A closed event source has no events, and a cleared timer no ticks; a reply comes all the same,
  -- and `init` goes on with the next request.
  unfoldable pub live : LiveEvent N → Live N → Live N
  live (backlog lines st) l =
      if l.stream_open then record l { state = set_backlog lines st l.state } else l
  live (emitted e) l = if l.stream_open then record l { state = receive e l.state } else l
  live spec_tick l = if l.spec_timer then send get_spec l else l
  live status_tick l = if l.status_timer then send get_status l else l
  live (spec_reply t now r) l = record l { state = poll_spec_done num t now r l.state }
  live (status_reply st) l = record l { state = poll_status_done st l.state }
  live (config_reply config presets paths) l =
      send (get_models paths.models_dir)
        (record l { state = init_done config presets paths l.state })
  live (models_reply dir models) l =
      send get_status (record l { state = refresh_models_done dir models l.state })
  live unmounted l = unmount l

  pub live_all : List (LiveEvent N) → Live N → Live N
  live_all [] l = l
  live_all (e ∷ es) l = live_all es (live e l)
