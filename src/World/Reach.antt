-- ===== src/World/Reach.antt =====
-- The invariants of the manager hold after any run of calls and events.
use dspark_edge.Base.{List, arith}
use dspark_edge.Base.Text.{Text}
use dspark_edge.Types.{ProcId, server, daemon, Stream}
use dspark_edge.Process.{Env, Manager, Sent, send, push_log}
use dspark_edge.Process.Invariant.{
  LogInv, new-LogInv, push_log-LogInv, update_status-LogInv, start-LogInv, on_error-LogInv,
  on_exit-LogInv,
}
use dspark_edge.Process.Distinct.{
  Distinct, new-Distinct, push_log-Distinct, update_status-Distinct, start-Distinct,
  on_error-Distinct, on_exit-Distinct,
}
use dspark_edge.Process.Lifecycle.{core, core-push_log, core-update_status}
use dspark_edge.Process.States.{
  StateInv, new-StateInv, start-StateInv, on_error-StateInv, on_exit-StateInv,
}
use dspark_edge.World.{World, initial, stop_idle, Event, run}
use dspark_edge.World.Keeps.{Keeps, run-keeps}

pub record Inv (w : World) : Type 0 where
  pub logs : LogInv w.manager
  pub states : StateInv w.manager

send-LogInv : (s : Sent) (m : Manager) → LogInv m → LogInv (send s m)
send-LogInv s m v = record { server = v.server; daemon = v.daemon }

LogInv-keeps : Keeps LogInv
LogInv-keeps = record {
  sending = send-LogInv;
  logging = push_log-LogInv;
  idling = λ id. update_status-LogInv id _;
  launching = start-LogInv;
  breaking = on_error-LogInv;
  ending = on_exit-LogInv;
}

send-StateInv : (s : Sent) (m : Manager) → StateInv m → StateInv (send s m)
unfolding core
send-StateInv s m v server = v server
send-StateInv s m v daemon = v daemon

push_log-StateInv :
    (e : Env) (id : ProcId) (stream : Stream) (text : Text) (m : Manager)
    → StateInv m
    → StateInv (push_log e id stream text m)
push_log-StateInv e id stream text m v j = rw core-push_log (v j)

-- Marking a process stopped needs that it has no child or no pid; its child stays.
stop_idle-StateInv : (id : ProcId) (m : Manager) → StateInv m → StateInv (stop_idle id m)
stop_idle-StateInv id m v j = rw core-update_status (ground (arith, v j))

StateInv-keeps : Keeps StateInv
StateInv-keeps = record {
  sending = send-StateInv;
  logging = push_log-StateInv;
  idling = stop_idle-StateInv;
  launching = start-StateInv;
  breaking = on_error-StateInv;
  ending = on_exit-StateInv;
}

-- After any run from the start, both logs are rings of at most 4000 lines with rising ids, each a
-- line of its process that is not empty and holds no line feed; no process is left `starting`, a
-- running one has its child, and one without a child has no pid.
pub run-Inv : (evs : List (Env × Event)) → Inv (run evs initial)
unfolding initial
run-Inv evs = record {
  logs = run-keeps LogInv LogInv-keeps evs initial new-LogInv;
  states = run-keeps StateInv StateInv-keeps evs initial new-StateInv;
}

send-Distinct : (s : Sent) (m : Manager) → Distinct m → Distinct (send s m)
send-Distinct s m v = record { logs = send-LogInv s m v.logs; apart = v.apart }

Distinct-keeps : Keeps Distinct
Distinct-keeps = record {
  sending = send-Distinct;
  logging = push_log-Distinct;
  idling = λ id. update_status-Distinct id _;
  launching = start-Distinct;
  breaking = on_error-Distinct;
  ending = on_exit-Distinct;
}

-- After any run from the start no line of one log has the id of a line of the other.
pub run-Distinct : (evs : List (Env × Event)) → Distinct (run evs initial).manager
unfolding initial
run-Distinct evs = run-keeps Distinct Distinct-keeps evs initial new-Distinct
