-- ===== src/Store/Bounds.antt =====
-- The two histories that the browser keeps are bounded, and hold the latest entries.
use dspark_edge.Base.{
  ℕ, ◌≤◌, ◌≡◌, sym, ap, ◌∙◌, Bool, true, false, Option, none, some, List, [], ◌∷◌, ◌++◌, append-nil,
  append_assoc, arith, length, take_last, length-take_last, take_last-append, take_last_of_le,
}
use dspark_edge.Base.Text.{Text}
use dspark_edge.Numbers.{Numbers}
use dspark_edge.Types.{LogLine, DashboardConfig, Statuses}
use dspark_edge.Store.{
  ActionName, SpecStats, SpecResponse, AppState, ActionReply, failed, replied, max_logs,
  max_history, initial, init_done, edited, patch_server, patch_daemon, apply_preset, persist_done,
  refresh_models_done, run_action_begin, take_status, run_action_end, poll_status_done, add_point,
  poll_spec_done, spec_point, append_log, set_backlog, set_status, clear_logs,
}
use dspark_edge.Store.Actions.{
  Action, inits, patches_server, patches_daemon, presets, persisted, models, begins, ends,
  polled_status, polled_spec, logged, backlog, status, clears, act, act_all, act_all_induction,
}

module _ {N : Type 0} where
  pub record IsBounded (s : AppState N) : Type 0 where
    pub logs : length s.logs ≤ max_logs
    pub history : length s.spec_history ≤ max_history

  edited-IsBounded :
      (o : Option (DashboardConfig N)) (s : AppState N) → IsBounded s → IsBounded (edited o s)
  edited-IsBounded none s b = b
  edited-IsBounded (some c) s b = record { logs = b.logs; history = b.history }

  begin-IsBounded :
      (a : ActionName) (s : AppState N) → IsBounded s → IsBounded (run_action_begin a s).0
  unfolding run_action_begin
  begin-IsBounded a s b = ground arith

  take_status-IsBounded :
      (o : Option Statuses) (s : AppState N) → IsBounded s → IsBounded (take_status o s)
  take_status-IsBounded none s b = b
  take_status-IsBounded (some st) s b = record { logs = b.logs; history = b.history }

  end-IsBounded :
      (a : ActionName) (reply : ActionReply) (s : AppState N)
      → IsBounded s
      → IsBounded (run_action_end a reply s).0
  unfolding run_action_end
  end-IsBounded a (failed msg) s b = record { logs = b.logs; history = b.history }
  end-IsBounded a (replied ok err none) s b = record { logs = b.logs; history = b.history }
  end-IsBounded a (replied ok err (some st)) s b = record { logs = b.logs; history = b.history }

  poll_status-IsBounded :
      (o : Option Statuses) (s : AppState N) → IsBounded s → IsBounded (poll_status_done o s)
  unfolding poll_status_done
  poll_status-IsBounded none s b = b
  poll_status-IsBounded (some st) s b = record { logs = b.logs; history = b.history }

module _ {N : Type 0} (num : Numbers N) where
  add_point-IsBounded :
      (t : Text) (now : ℕ) (reachable : Bool) (o : Option (SpecStats N)) (s : AppState N)
      → IsBounded s
      → IsBounded (add_point num t now reachable o s)
  add_point-IsBounded t now reachable none s b = b
  add_point-IsBounded t now false (some stats) s b = b
  add_point-IsBounded t now true (some stats) s b = record {
    logs = b.logs;
    history = length-take_last max_history (s.spec_history ++ spec_point num t now stats ∷ []);
  }

  poll_spec-IsBounded :
      (t : Text) (now : ℕ) (r : Option (SpecResponse N)) (s : AppState N)
      → IsBounded s
      → IsBounded (poll_spec_done num t now r s)
  unfolding poll_spec_done
  poll_spec-IsBounded t now none s b = record { logs = b.logs; history = b.history }
  poll_spec-IsBounded t now (some r) s b =
      add_point-IsBounded t now r.reachable r.spec (record s { spec = some r })
        (record { logs = b.logs; history = b.history })

  act-IsBounded : (a : Action N) (s : AppState N) → IsBounded s → IsBounded (act num a s)
  unfolding act init_done patch_server patch_daemon apply_preset persist_done refresh_models_done
      append_log set_backlog set_status clear_logs
  act-IsBounded (inits config ps paths) s b = record { logs = b.logs; history = b.history }
  act-IsBounded (patches_server p) s b = edited-IsBounded _ s b
  act-IsBounded (patches_daemon p) s b = edited-IsBounded _ s b
  act-IsBounded (presets id) s b = edited-IsBounded _ s b
  act-IsBounded persisted s b = record { logs = b.logs; history = b.history }
  act-IsBounded (models dir found) s b = record { logs = b.logs; history = b.history }
  act-IsBounded (begins a) s b = begin-IsBounded a s b
  act-IsBounded (ends a reply) s b = end-IsBounded a reply s b
  act-IsBounded (polled_status st) s b = poll_status-IsBounded st s b
  act-IsBounded (polled_spec t now r) s b = poll_spec-IsBounded t now r s b
  act-IsBounded (logged line) s b = record {
    logs = length-take_last max_logs (s.logs ++ line ∷ []);
    history = b.history;
  }
  act-IsBounded (backlog lines st) s b = record {
    logs = length-take_last max_logs lines;
    history = b.history;
  }
  act-IsBounded (status st) s b = record { logs = b.logs; history = b.history }
  act-IsBounded clears s b = record { logs = omega arith; history = b.history }

  -- Whatever actions run from the start, the browser keeps at most 2000 log lines and 120 points.
  pub act_all-IsBounded : (acts : List (Action N)) → IsBounded (act_all num acts initial)
  act_all-IsBounded acts =
      act_all_induction num IsBounded act-IsBounded acts initial (unfold initial in omega arith)

-- Lines that arrive one by one.
pub append_logs : {N : Type 0} → List LogLine → AppState N → AppState N
append_logs [] s = s
append_logs (l ∷ ls) s = append_logs ls (append_log l s)

-- However many lines arrive, the browser then holds the latest 2000 of what it held and of them.
pub logs-append_logs :
    {N : Type 0} (ls : List LogLine) (s : AppState N)
    → length s.logs ≤ max_logs
    → (append_logs ls s).logs ≡ take_last max_logs (s.logs ++ ls)
unfolding append_logs append_log
logs-append_logs [] s h = sym (rw append-nil (take_last_of_le max_logs s.logs h))
logs-append_logs (l ∷ ls) s h =
    logs-append_logs ls (append_log l s) (length-take_last max_logs (s.logs ++ l ∷ []))
    ∙ (take_last-append max_logs (s.logs ++ l ∷ []) ls
        ∙ ap (take_last max_logs) (append_assoc s.logs (l ∷ []) ls))
