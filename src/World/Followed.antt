-- ===== src/World/Followed.antt =====
-- Every step of the world keeps what the manager has emitted in line with its status.
use dspark_edge.Base.{refl, List}
use dspark_edge.Process.{Env, Manager, Sent, send, all_status}
use dspark_edge.Process.Emitted.{
  IsFollowed, push_log-IsFollowed, update_status-IsFollowed, start-IsFollowed, on_error-IsFollowed,
  on_exit-IsFollowed, HasIds, new-HasIds, base-IsFollowed,
}
use dspark_edge.World.{World, initial, Event, run}
use dspark_edge.World.Keeps.{Keeps, run-keeps}

module _ (base : Manager) where
  send-IsFollowed : (s : Sent) (m : Manager) → IsFollowed base m → IsFollowed base (send s m)
  send-IsFollowed s m v = record {
    since = v.since;
    emitted = v.emitted;
    replayed = v.replayed;
    ids = v.ids;
    rising = v.rising;
  }

  IsFollowed-keeps : Keeps (IsFollowed base)
  IsFollowed-keeps = record {
    sending = send-IsFollowed;
    logging = push_log-IsFollowed base;
    idling = λ id m. update_status-IsFollowed base id _ m (λ s. refl);
    launching = start-IsFollowed base;
    breaking = on_error-IsFollowed base;
    ending = on_exit-IsFollowed base;
  }

  pub run-IsFollowed :
      (evs : List (Env × Event)) (w : World)
      → IsFollowed base w.manager
      → IsFollowed base (run evs w).manager
  run-IsFollowed = run-keeps (IsFollowed base) IsFollowed-keeps

-- In every world that can be reached each status carries the name of its process.
pub run-HasIds : (evs : List (Env × Event)) → HasIds (all_status (run evs initial).manager)
run-HasIds evs =
    (run-IsFollowed initial.manager evs initial
      (base-IsFollowed initial.manager (unfold initial in new-HasIds))).ids
