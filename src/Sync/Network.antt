-- ===== src/Sync/Network.antt =====
-- The browser, the manager and what is under way between them: the chunks of the live stream
-- (tools/llama-dspark-test-ui/app/api/logs/route.ts), which come in order, and the replies of GET
-- /api/process (app/api/process/route.ts), which may come late and overtake one another.
pub mod Laws
pub mod Written
pub mod Resync
pub mod Repair
pub mod Stale
pub mod Shapes
mod Tests
use dspark_edge.Base.{
  ℕ, zero, suc, ◌+◌, Bool, true, false, Option, none, some, List, [], ◌∷◌, ◌++◌, map, get_elem?,
  length, drop,
}
use dspark_edge.Types.{Statuses}
use dspark_edge.Process.{Env, Emission, all_status}
use dspark_edge.Store.{AppState, set_backlog, poll_status_done}
use dspark_edge.World.{World, Event, step}
use dspark_edge.Api.Stream.{
  Chunk, backlog, live, ping, Connection, open_stream, emits, beats, handle_all,
}
use dspark_edge.Sync.{receive}

-- `taken` counts the chunks of the connection that the browser has taken, `replies` are those under
-- way, in the order in which they were read from the manager.
pub record Session (N : Type 0) : Type 0 where
  pub world : World
  pub connection : Connection
  pub taken : ℕ
  pub replies : List Statuses
  pub state : AppState N

-- What can happen: a step of the manager's world, whose emissions go to the connection; a heartbeat;
-- a new connection, which the browser opens by itself when the last one broke; the browser takes the
-- next chunk; the server answers `pollStatus`; the nth answer arrives. `works` is whether the writes
-- to the connection go through.
pub data SessionEvent : Type 0 where
  happens : (works : Bool) → Env → Event → SessionEvent
  heartbeat : (works : Bool) → SessionEvent
  reconnects : (works : Bool) → SessionEvent
  takes : SessionEvent
  asks : SessionEvent
  answers : ℕ → SessionEvent

module _ {A : Type 0} where
  -- The list without its nth element.
  abbrev pub remove_at : ℕ → List A → List A
  remove_at n [] = []
  remove_at zero (x ∷ xs) = xs
  remove_at (suc n) (x ∷ xs) = x ∷ remove_at n xs

-- What was emitted since the first `n` emissions goes to the connection's listeners.
abbrev pub notify : Bool → ℕ → World → Connection → Connection
notify works n w c = handle_all (map (emits works) (drop n w.manager.emitted)) c

module _ {N : Type 0} where
  -- The three listeners of the event source; a comment line, such as a ping, has none.
  pub take_chunk : Chunk → AppState N → AppState N
  take_chunk (backlog lines st) s = set_backlog lines st s
  take_chunk (live e) s = receive e s
  take_chunk ping s = s

  abbrev pub take_next : Option Chunk → Session N → Session N
  take_next none s = s
  take_next (some c) s = record s { taken = suc s.taken; state = take_chunk c s.state }

  abbrev pub answer : ℕ → Option Statuses → Session N → Session N
  answer n none s = s
  answer n (some st) s = record s {
    replies = remove_at n s.replies;
    state = poll_status_done (some st) s.state;
  }

  abbrev pub connected : Bool → Session N → Session N
  connected works s = record s { connection = open_stream works s.world.manager; taken = 0 }

  pub session : SessionEvent → Session N → Session N
  session (happens works e ev) s =
      let w = step e ev s.world in
      record s {
        world = w;
        connection = notify works (length s.world.manager.emitted) w s.connection;
      }
  session (heartbeat works) s = record s { connection = handle_all (beats works ∷ []) s.connection }
  session (reconnects works) s = connected works s
  session takes s = take_next (get_elem? s.connection.written s.taken) s
  session asks s = record s { replies = s.replies ++ all_status s.world.manager ∷ [] }
  session (answers n) s = answer n (get_elem? s.replies n) s

  pub session_all : List SessionEvent → Session N → Session N
  session_all [] s = s
  session_all (e ∷ es) s = session_all es (session e s)

  -- The page is opened: the stream is connected, nothing is taken yet.
  pub open_page : World → AppState N → Session N
  open_page w s = record {
    world = w;
    connection = open_stream true w.manager;
    taken = 0;
    replies = [];
    state = s;
  }
