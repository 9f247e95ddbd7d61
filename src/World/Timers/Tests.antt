-- ===== src/World/Timers/Tests.antt =====
-- The theorem on the timers of a `stop` at a concrete run.
use dspark_edge.Base.{
  ◌≡◌, refl, true, false, some, List, [], ◌∷◌, ◌++◌, ◌==◌, if◌then◌else◌, get_elem?,
}
use dspark_edge.Base.Text.{lit}
use dspark_edge.Types.{server}
use dspark_edge.Process.{
  Env, to_child, kill_pid, start, launch, boot, push_log, push_lines, push_line, push_ring,
  update_status, set_child, clear_logs, new, blank_proc, blank_status,
}
use dspark_edge.Process.Lines.{split_lines}
use dspark_edge.Process.Lifecycle.{core}
use dspark_edge.World.{
  Wait, Event, initial, starts, stops, term_timer, kill_timer, stop, stop_with, step, run,
}
use dspark_edge.World.Aims.{Holds}
use dspark_edge.World.Timers.{Faithful, timers-own}
use dspark_edge.Samples.{sample_child, sample_env, sample_bin}

-- A server that was started and is asked to stop twice.
abbrev twice : List (Env × Event)
twice =
    (sample_env, starts server sample_bin [])
    ∷ (sample_env, stops server)
    ∷ (sample_env, stops server)
    ∷ []

abbrev wait : Wait
wait = record { proc = server; child = sample_child; pid = 42; armed = true; settled = false }

waits_at : get_elem? (run twice initial).waits 1 ≡ some wait
unfolding run step stop stop_with start launch boot push_log push_lines push_line push_ring
    update_status set_child clear_logs split_lines lit initial new blank_proc blank_status
waits_at = refl

twice-Faithful : Faithful server twice initial
unfolding run step stop stop_with start launch boot push_log push_lines push_line push_ring core
    update_status set_child clear_logs split_lines lit initial new blank_proc blank_status
twice-Faithful = (tt, (tt, (tt, tt)))

timers-own_example :
    let w = run twice initial in
    Holds (core w.manager server) wait
    × ((step sample_env (term_timer 1) w).manager.sent ≡ (
        if wait.armed
        then w.manager.sent ++ to_child sample_child (lit "SIGTERM") ∷ []
        else w.manager.sent))
    × ((step sample_env (kill_timer 1) w).manager.sent
        ≡ (if 42 == 0 then w.manager.sent else w.manager.sent ++ kill_pid 42 ∷ []))
timers-own_example = timers-own server twice sample_env 1 wait twice-Faithful waits_at refl refl
