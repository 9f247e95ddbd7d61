-- ===== src/Process/Invariant.antt =====
-- What holds of the logs of both processes, whatever calls and events have run.
use dspark_edge.Base.{
  ℕ, suc, ◌≤◌, ◌<◌, ◌≡◌, refl, Option, List, [], ◌∷◌, ◌++◌, arith, length, length-append,
  length-drop, drop, All, All-append, All-drop,
}
use dspark_edge.Base.Text.{Text}
use dspark_edge.Types.{ProcId, server, daemon, Stream, ProcStatus, LogLine}
use dspark_edge.Process.{
  Env, Manager, Child, Spawned, child, refused, max_log_lines, push_ring, push_line, push_lines,
  push_log, update_status, set_child, clear_logs, launch, boot, missing, start, on_error, on_exit,
  new, blank_proc, start_cases,
}
use dspark_edge.Process.Lines.{split_lines, NoFeed, split_lines-NoFeed}

-- The ids rise along the list, from above `lo` up to `hi` at most.
abbrev pub Rising : ℕ → List LogLine → ℕ → Type 0
Rising lo [] hi = lo ≤ hi
Rising lo (l ∷ ls) hi = (lo < l.id) × Rising l.id ls hi

-- A line of process `id`: not empty, and without a line feed.
abbrev pub IsLineOf : ProcId → LogLine → Type 0
IsLineOf id l = (l.proc ≡ id) × (0 < length l.text) × NoFeed l.text

pub record IsRing (id : ProcId) (seq : ℕ) (logs : List LogLine) : Type 0 where
  pub rising : Rising 0 logs seq
  pub lines : All (IsLineOf id) logs
  pub bounded : length logs ≤ max_log_lines

pub record LogInv (m : Manager) : Type 0 where
  pub server : IsRing server m.log_seq m.server.logs
  pub daemon : IsRing daemon m.log_seq m.daemon.logs

pub Rising-weaken :
    (lo lo' hi hi' : ℕ) (ls : List LogLine)
    → lo' ≤ lo
    → hi ≤ hi'
    → Rising lo ls hi
    → Rising lo' ls hi'
Rising-weaken lo lo' hi hi' [] h k r = omega arith
Rising-weaken lo lo' hi hi' (l ∷ ls) h k r =
    (omega (arith, r.0), Rising-weaken l.id l.id hi hi' ls (omega arith) k r.1)

pub Rising-append :
    (lo hi : ℕ) (ls : List LogLine) (l : LogLine)
    → l.id ≡ suc hi
    → Rising lo ls hi
    → Rising lo (ls ++ l ∷ []) (suc hi)
Rising-append lo hi [] l e r = (omega arith, omega arith)
Rising-append lo hi (x ∷ ls) l e r = (r.0, Rising-append x.id hi ls l e r.1)

pub Rising-tail : (lo hi : ℕ) (ls : List LogLine) → Rising lo ls hi → Rising lo (drop 1 ls) hi
Rising-tail lo hi [] r = r
Rising-tail lo hi (l ∷ ls) r = Rising-weaken l.id lo hi hi ls (omega (arith, r.0)) (omega arith) r.1

IsRing-push :
    (id : ProcId) (seq : ℕ) (logs : List LogLine) (l : LogLine)
    → l.id ≡ suc seq
    → IsLineOf id l
    → IsRing id seq logs
    → IsRing id (suc seq) (push_ring logs l)
unfolding push_ring
IsRing-push id seq logs l e k r =
    let longer = Rising-append 0 seq logs l e r.rising in
    let good = All-append (IsLineOf id) logs (l ∷ []) r.lines (k, tt) in
    record {
      rising = ground (arith, longer, Rising-tail 0 (suc seq) (logs ++ l ∷ []) longer);
      lines = ground (arith, good, All-drop (IsLineOf id) 1 (logs ++ l ∷ []) good);
      bounded =
          ground (arith, r.bounded, length-append logs (l ∷ []), length-drop 1 (logs ++ l ∷ []));
    }

IsRing-later :
    (id : ProcId) (seq : ℕ) (logs : List LogLine) → IsRing id seq logs → IsRing id (suc seq) logs
IsRing-later id seq logs r = record {
  rising = Rising-weaken 0 0 seq (suc seq) logs (omega arith) (omega arith) r.rising;
  lines = r.lines;
  bounded = r.bounded;
}

module _ (e : Env) where
  pub push_line-LogInv :
      (id : ProcId) (stream : Stream) (m : Manager) (raw : Text)
      → 0 < length raw
      → NoFeed raw
      → LogInv m
      → LogInv (push_line e id stream m raw)
  unfolding push_line
  push_line-LogInv server stream m raw h k v = record {
    server = IsRing-push server m.log_seq m.server.logs _ refl (refl, h, k) v.server;
    daemon = IsRing-later daemon m.log_seq m.daemon.logs v.daemon;
  }
  push_line-LogInv daemon stream m raw h k v = record {
    server = IsRing-later server m.log_seq m.server.logs v.server;
    daemon = IsRing-push daemon m.log_seq m.daemon.logs _ refl (refl, h, k) v.daemon;
  }

  push_lines-LogInv :
      (id : ProcId) (stream : Stream) (m : Manager) (raws : List Text)
      → All NoFeed raws
      → LogInv m
      → LogInv (push_lines e id stream m raws)
  unfolding push_lines
  push_lines-LogInv id stream m [] h v = v
  push_lines-LogInv id stream m ([] ∷ rest) h v = push_lines-LogInv id stream m rest h.1 v
  push_lines-LogInv id stream m ((c ∷ raw) ∷ rest) h v =
      push_lines-LogInv id stream (push_line e id stream m (c ∷ raw)) rest h.1
        (push_line-LogInv id stream m (c ∷ raw) (omega arith) h.0 v)

  pub push_log-LogInv :
      (id : ProcId) (stream : Stream) (text : Text) (m : Manager)
      → LogInv m
      → LogInv (push_log e id stream text m)
  unfolding push_log
  push_log-LogInv id stream text m v =
      push_lines-LogInv id stream m (split_lines text) (split_lines-NoFeed text) v

pub update_status-LogInv :
    (id : ProcId) (patch : ProcStatus → ProcStatus) (m : Manager)
    → LogInv m
    → LogInv (update_status id patch m)
unfolding update_status
update_status-LogInv server patch m v = record { server = v.server; daemon = v.daemon }
update_status-LogInv daemon patch m v = record { server = v.server; daemon = v.daemon }

pub set_child-LogInv :
    (id : ProcId) (c : Option Child) (m : Manager) → LogInv m → LogInv (set_child id c m)
unfolding set_child
set_child-LogInv server c m v = record { server = v.server; daemon = v.daemon }
set_child-LogInv daemon c m v = record { server = v.server; daemon = v.daemon }

empty-IsRing : (id : ProcId) (seq : ℕ) → IsRing id seq []
empty-IsRing id seq = record { rising = omega arith; lines = tt; bounded = omega arith }

pub clear_logs-LogInv : (id : ProcId) (m : Manager) → LogInv m → LogInv (clear_logs id m)
unfolding clear_logs
clear_logs-LogInv server m v = record { server = empty-IsRing server m.log_seq; daemon = v.daemon }
clear_logs-LogInv daemon m v = record { server = v.server; daemon = empty-IsRing daemon m.log_seq }

ruleset parts = (push_log-LogInv, update_status-LogInv, set_child-LogInv, clear_logs-LogInv)

pub new-LogInv : LogInv new
unfolding new blank_proc
new-LogInv = record { server = empty-IsRing server 0; daemon = empty-IsRing daemon 0 }

module _ (e : Env) where
  launch-LogInv : (id : ProcId) (r : Spawned) (m : Manager) → LogInv m → LogInv (launch e id r m).0
  unfolding launch
  launch-LogInv id (refused msg) m v = search parts
  launch-LogInv id (child c) m v = search parts

  -- Whatever `start` does, the logs stay well formed.
  pub start-LogInv :
      (id : ProcId) (bin : Text) (args : List Text) (m : Manager)
      → LogInv m
      → LogInv (start e id bin args m).0
  unfolding boot missing
  start-LogInv id bin args m v =
      start_cases e id bin args m (λ r. LogInv r.0) (λ _. v)
        (λ _ _. launch-LogInv id (e.spawn bin args) _ (search parts)) (λ _ _. search parts)

  pub on_error-LogInv :
      (id : ProcId) (msg : Text) (m : Manager) → LogInv m → LogInv (on_error e id msg m)
  unfolding on_error
  on_error-LogInv id msg m v = search parts

  pub on_exit-LogInv :
      (id : ProcId) (code : Option ℕ) (signal : Option Text) (m : Manager)
      → LogInv m
      → LogInv (on_exit e id code signal m)
  unfolding on_exit
  on_exit-LogInv id code signal m v = search parts
