-- ===== src/Process/Emitted.antt =====
-- What the manager emits: replaying it gives the status of both processes.
use dspark_edge.Base.{
  ℕ, suc, arith, ◌≡◌, refl, sym, ap, ◌∙◌, Option, none, some, List, [], ◌∷◌, ◌++◌, append_assoc,
  append-nil,
}
use dspark_edge.Base.Text.{Text}
use dspark_edge.Types.{ProcId, server, daemon, ProcStatus, Statuses, Stream, LogLine, system}
use dspark_edge.Process.{
  Env, Manager, Child, Spawned, child, refused, Emission, log, status, all_status, new_line,
  push_line, push_lines, push_log, update_status, set_child, clear_logs, start, start_cases, launch,
  boot, missing, on_error, on_exit, new, blank_proc, blank_status,
}
use dspark_edge.Process.Invariant.{Rising, Rising-append}
use dspark_edge.Store.{put_status}

-- The status that a stream leaves, and the log lines that it carries.
abbrev pub replay : List Emission → Statuses → Statuses
replay [] s = s
replay (log line ∷ es) s = replay es s
replay (status st ∷ es) s = replay es (put_status st.id st s)

abbrev pub lines_of : List Emission → List LogLine
lines_of [] = []
lines_of (log line ∷ es) = line ∷ lines_of es
lines_of (status st ∷ es) = lines_of es

pub replay-append :
    (es fs : List Emission) (s : Statuses) → replay (es ++ fs) s ≡ replay fs (replay es s)
replay-append [] fs s = refl
replay-append (log line ∷ es) fs s = replay-append es fs s
replay-append (status st ∷ es) fs s = replay-append es fs (put_status st.id st s)

lines_of-append : (es fs : List Emission) → lines_of (es ++ fs) ≡ lines_of es ++ lines_of fs
lines_of-append [] fs = refl
lines_of-append (log line ∷ es) fs = ap (λ ls. line ∷ ls) (lines_of-append es fs)
lines_of-append (status st ∷ es) fs = lines_of-append es fs

line-Rising :
    (es : List Emission) (line : LogLine) (lo hi : ℕ)
    → line.id ≡ suc hi
    → Rising lo (lines_of es) hi
    → Rising lo (lines_of (es ++ log line ∷ [])) (suc hi)
line-Rising es line lo hi h r =
    rw (lines_of-append es (log line ∷ [])) (Rising-append lo hi (lines_of es) line h r)

status-Rising :
    (es : List Emission) (st : ProcStatus) (lo hi : ℕ)
    → Rising lo (lines_of es) hi
    → Rising lo (lines_of (es ++ status st ∷ [])) hi
status-Rising es st lo hi r = rw (lines_of-append es (status st ∷ []), append-nil (lines_of es)) r

-- Each status carries the name of its process.
abbrev pub HasIds : Statuses → Type 0
HasIds s = (s.server.id ≡ server) × (s.daemon.id ≡ daemon)

put_status-server :
    (st : ProcStatus) (s : Statuses)
    → st.id ≡ server
    → put_status st.id st s ≡ record s { server = st }
put_status-server st s h = rw h

put_status-daemon :
    (st : ProcStatus) (s : Statuses)
    → st.id ≡ daemon
    → put_status st.id st s ≡ record s { daemon = st }
put_status-daemon st s h = rw h

-- What the manager has emitted since `base` takes the status of `base` to the status of now.
module _ (base : Manager) where
  pub record IsFollowed (m : Manager) : Type 0 where
    pub since : List Emission
    pub emitted : m.emitted ≡ base.emitted ++ since
    pub replayed : replay since (all_status base) ≡ all_status m
    pub ids : HasIds (all_status m)
    pub rising : Rising base.log_seq (lines_of since) m.log_seq

  emit-emitted :
      (since : List Emission) (e : Emission) (m : Manager)
      → m.emitted ≡ base.emitted ++ since
      → m.emitted ++ e ∷ [] ≡ base.emitted ++ (since ++ e ∷ [])
  emit-emitted since e m h = rw h (append_assoc base.emitted since (e ∷ []))

  push_line-IsFollowed :
      (e : Env) (id : ProcId) (stream : Stream) (m : Manager) (raw : Text)
      → IsFollowed m
      → IsFollowed (push_line e id stream m raw)
  unfolding push_line
  push_line-IsFollowed e server stream m raw v = record {
    since = v.since ++ log (new_line e server stream m raw) ∷ [];
    emitted = emit-emitted v.since _ m v.emitted;
    replayed = replay-append v.since _ _ ∙ v.replayed;
    ids = v.ids;
    rising = line-Rising v.since _ base.log_seq m.log_seq refl v.rising;
  }
  push_line-IsFollowed e daemon stream m raw v = record {
    since = v.since ++ log (new_line e daemon stream m raw) ∷ [];
    emitted = emit-emitted v.since _ m v.emitted;
    replayed = replay-append v.since _ _ ∙ v.replayed;
    ids = v.ids;
    rising = line-Rising v.since _ base.log_seq m.log_seq refl v.rising;
  }

  push_lines-IsFollowed :
      (e : Env) (id : ProcId) (stream : Stream) (m : Manager) (raws : List Text)
      → IsFollowed m
      → IsFollowed (push_lines e id stream m raws)
  unfolding push_lines
  push_lines-IsFollowed e id stream m [] v = v
  push_lines-IsFollowed e id stream m ([] ∷ rest) v = push_lines-IsFollowed e id stream m rest v
  push_lines-IsFollowed e id stream m ((c ∷ raw) ∷ rest) v =
      push_lines-IsFollowed e id stream (push_line e id stream m (c ∷ raw)) rest
        (push_line-IsFollowed e id stream m (c ∷ raw) v)

  pub push_log-IsFollowed :
      (e : Env) (id : ProcId) (stream : Stream) (text : Text) (m : Manager)
      → IsFollowed m
      → IsFollowed (push_log e id stream text m)
  unfolding push_log
  push_log-IsFollowed e id stream text m v = push_lines-IsFollowed e id stream m _ v

  -- A patch that keeps the name of the process.
  pub update_status-IsFollowed :
      (id : ProcId) (f : ProcStatus → ProcStatus) (m : Manager)
      → ((s : ProcStatus) → (f s).id ≡ s.id)
      → IsFollowed m
      → IsFollowed (update_status id f m)
  unfolding update_status
  update_status-IsFollowed server f m k v = record {
    since = v.since ++ status (f m.server.status) ∷ [];
    emitted = emit-emitted v.since _ m v.emitted;
    replayed =
        replay-append v.since _ _
        ∙ (ap (λ s. put_status (f m.server.status).id (f m.server.status) s) v.replayed
            ∙ put_status-server (f m.server.status) (all_status m) (k m.server.status ∙ v.ids.0));
    ids = (k m.server.status ∙ v.ids.0, v.ids.1);
    rising = status-Rising v.since _ base.log_seq m.log_seq v.rising;
  }
  update_status-IsFollowed daemon f m k v = record {
    since = v.since ++ status (f m.daemon.status) ∷ [];
    emitted = emit-emitted v.since _ m v.emitted;
    replayed =
        replay-append v.since _ _
        ∙ (ap (λ s. put_status (f m.daemon.status).id (f m.daemon.status) s) v.replayed
            ∙ put_status-daemon (f m.daemon.status) (all_status m) (k m.daemon.status ∙ v.ids.1));
    ids = (v.ids.0, k m.daemon.status ∙ v.ids.1);
    rising = status-Rising v.since _ base.log_seq m.log_seq v.rising;
  }

  set_child-IsFollowed :
      (id : ProcId) (c : Option Child) (m : Manager) → IsFollowed m → IsFollowed (set_child id c m)
  unfolding set_child
  set_child-IsFollowed server c m v = record {
    since = v.since;
    emitted = v.emitted;
    replayed = v.replayed;
    ids = v.ids;
    rising = v.rising;
  }
  set_child-IsFollowed daemon c m v = record {
    since = v.since;
    emitted = v.emitted;
    replayed = v.replayed;
    ids = v.ids;
    rising = v.rising;
  }

  clear_logs-IsFollowed : (id : ProcId) (m : Manager) → IsFollowed m → IsFollowed (clear_logs id m)
  unfolding clear_logs
  clear_logs-IsFollowed server m v = record {
    since = v.since;
    emitted = v.emitted;
    replayed = v.replayed;
    ids = v.ids;
    rising = v.rising;
  }
  clear_logs-IsFollowed daemon m v = record {
    since = v.since;
    emitted = v.emitted;
    replayed = v.replayed;
    ids = v.ids;
    rising = v.rising;
  }

  module _ (e : Env) where
    launch-IsFollowed :
        (id : ProcId) (r : Spawned) (m : Manager) → IsFollowed m → IsFollowed (launch e id r m).0
    unfolding launch
    launch-IsFollowed id (refused msg) m v =
        update_status-IsFollowed id _ _ (λ s. refl) (push_log-IsFollowed e id system _ m v)
    launch-IsFollowed id (child c) m v =
        update_status-IsFollowed id _ _ (λ s. refl) (set_child-IsFollowed id (some c) m v)

    boot-IsFollowed :
        (id : ProcId) (command : Text) (m : Manager)
        → IsFollowed m
        → IsFollowed (boot e id command m)
    unfolding boot
    boot-IsFollowed id command m v =
        push_log-IsFollowed e id system _ _
          (update_status-IsFollowed id _ _ (λ s. refl) (clear_logs-IsFollowed id m v))

    missing-IsFollowed :
        (id : ProcId) (bin : Text) (m : Manager) → IsFollowed m → IsFollowed (missing e id bin m).0
    unfolding missing
    missing-IsFollowed id bin m v =
        update_status-IsFollowed id _ _ (λ s. refl) (push_log-IsFollowed e id system _ m v)

    pub start-IsFollowed :
        (id : ProcId) (bin : Text) (args : List Text) (m : Manager)
        → IsFollowed m
        → IsFollowed (start e id bin args m).0
    start-IsFollowed id bin args m v =
        start_cases e id bin args m (λ r. IsFollowed r.0) (λ _. v)
          (λ _ _. launch-IsFollowed id (e.spawn bin args) _ (boot-IsFollowed id _ m v))
          (λ _ _. missing-IsFollowed id bin m v)

    pub on_error-IsFollowed :
        (id : ProcId) (msg : Text) (m : Manager) → IsFollowed m → IsFollowed (on_error e id msg m)
    unfolding on_error
    on_error-IsFollowed id msg m v =
        update_status-IsFollowed id _ _ (λ s. refl) (push_log-IsFollowed e id system _ m v)

    pub on_exit-IsFollowed :
        (id : ProcId) (code : Option ℕ) (signal : Option Text) (m : Manager)
        → IsFollowed m
        → IsFollowed (on_exit e id code signal m)
    unfolding on_exit
    on_exit-IsFollowed id code signal m v =
        update_status-IsFollowed id _ _ (λ s. refl)
          (push_log-IsFollowed e id system _ _ (set_child-IsFollowed id none m v))

  pub base-IsFollowed : HasIds (all_status base) → IsFollowed base
  base-IsFollowed h = record {
    since = [];
    emitted = sym (append-nil base.emitted);
    replayed = refl;
    ids = h;
    rising = omega arith;
  }

pub new-HasIds : HasIds (all_status new)
unfolding new blank_proc blank_status
new-HasIds = (refl, refl)
