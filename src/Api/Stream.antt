-- ===== src/Api/Stream.antt =====
-- GET /api/logs (tools/llama-dspark-test-ui/app/api/logs/route.ts): one connection of the live
-- stream. A write to the stream's controller goes through or throws; which, is given with the event.
pub mod Laws
pub mod Stays
use dspark_edge.Base.{ℕ, Bool, true, false, List, [], ◌∷◌, ◌++◌, if◌then◌else◌, take_last}
use dspark_edge.Types.{LogLine, Statuses}
use dspark_edge.Process.{Emission, Manager, all_status}
use dspark_edge.Process.All.{all_logs}
use dspark_edge.Sync.{max_backlog}

pub data Chunk : Type 0 where
  backlog : List LogLine → Statuses → Chunk
  live : Emission → Chunk
  ping : Chunk

-- `closed`, whether the two listeners are on the emitter and the heartbeat's timer is set, whether
-- the controller was closed, and what was written, oldest first.
pub record Connection : Type 0 where
  pub closed : Bool
  pub listening : Bool
  pub beating : Bool
  pub ended : Bool
  pub written : List Chunk

-- `send`, and the write of the heartbeat
unfoldable pub send : Bool → Chunk → Connection → Connection
send works chunk c =
    if c.closed
    then c
    else if works
    then record c { written = c.written ++ chunk ∷ [] }
    else record c { closed = true }

abbrev fresh : Connection
fresh = record { closed = false; listening = false; beating = false; ended = false; written = [] }

-- `start(controller)`: the backlog, then the listeners and the heartbeat.
unfoldable pub open_stream : Bool → Manager → Connection
open_stream works m =
    let c = send works (backlog (take_last max_backlog (all_logs 0 m)) (all_status m)) fresh in
    record c { listening = true; beating = true }

pub cleanup : Connection → Connection
cleanup c =
    if c.closed
    then c
    else record c { closed = true; beating = false; listening = false; ended = true }

-- The emitter calls a listener, the heartbeat's timer fires, or the request ends (an abort of the
-- request or a cancel of the stream).
pub data StreamEvent : Type 0 where
  emits : (works : Bool) → Emission → StreamEvent
  beats : (works : Bool) → StreamEvent
  leaves : StreamEvent

unfoldable pub handle : StreamEvent → Connection → Connection
handle (emits works e) c = if c.listening then send works (live e) c else c
handle (beats works) c = if c.beating then send works ping c else c
handle leaves c = cleanup c

unfoldable pub handle_all : List StreamEvent → Connection → Connection
handle_all [] c = c
handle_all (e ∷ es) c = handle_all es (handle e c)
