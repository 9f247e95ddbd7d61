-- ===== src/Process/Distinct.antt =====
-- No two lines of the two logs have the same id.
use dspark_edge.Base.{
  ℕ, suc, ◌≤◌, ◌<◌, ◌≡◌, ◌≢◌, refl, Option, List, [], ◌∷◌, ◌++◌, arith, length, All, All-append,
  All-drop, All-map, All-map2,
}
use dspark_edge.Base.Text.{Text}
use dspark_edge.Types.{ProcId, server, daemon, Stream, ProcStatus, LogLine}
use dspark_edge.Process.{
  Env, Manager, Child, Spawned, child, refused, push_ring, push_line, push_lines, push_log,
  update_status, set_child, clear_logs, launch, boot, missing, start, on_error, on_exit, new,
  blank_proc, start_cases,
}
use dspark_edge.Process.Lines.{split_lines, NoFeed, split_lines-NoFeed}
use dspark_edge.Process.Invariant.{
  Rising, LogInv, push_line-LogInv, update_status-LogInv, set_child-LogInv, clear_logs-LogInv,
  new-LogInv,
}

abbrev pub HasOther : LogLine → LogLine → Type 0
HasOther a b = a.id ≢ b.id

abbrev pub AreApart : List LogLine → List LogLine → Type 0
AreApart xs ys = All (λ x. All (HasOther x) ys) xs

pub record Distinct (m : Manager) : Type 0 where
  pub logs : LogInv m
  pub apart : AreApart m.server.logs m.daemon.logs

abbrev pub IsOld : ℕ → LogLine → Type 0
IsOld hi l = l.id ≤ hi

Rising-le : (lo : ℕ) (ls : List LogLine) (hi : ℕ) → Rising lo ls hi → lo ≤ hi
Rising-le lo [] hi r = r
Rising-le lo (l ∷ ls) hi r = omega (arith, r.0, Rising-le l.id ls hi r.1)

pub Rising-IsOld : (lo : ℕ) (ls : List LogLine) (hi : ℕ) → Rising lo ls hi → All (IsOld hi) ls
Rising-IsOld lo [] hi r = tt
Rising-IsOld lo (l ∷ ls) hi r = (Rising-le l.id ls hi r.1, Rising-IsOld l.id ls hi r.1)

All-push_ring {κ} :
    (P : LogLine → Type κ) (ls : List LogLine) (l : LogLine)
    → All P ls
    → P l
    → All P (push_ring ls l)
unfolding push_ring
All-push_ring P ls l h k =
    let grown = All-append P ls (l ∷ []) h (k, tt) in
    ground (arith, grown, All-drop P 1 (ls ++ l ∷ []) grown)

-- A line with a new id on either side.
push-left :
    (xs ys : List LogLine) (l : LogLine) (hi : ℕ)
    → l.id ≡ suc hi
    → All (IsOld hi) ys
    → AreApart xs ys
    → AreApart (push_ring xs l) ys
push-left xs ys l hi e old h =
    All-push_ring (λ x. All (HasOther x) ys) xs l h
      (All-map (IsOld hi) (HasOther l) (λ y k same. omega (arith, e, k, same)) ys old)

push-right :
    (xs ys : List LogLine) (l : LogLine) (hi : ℕ)
    → l.id ≡ suc hi
    → All (IsOld hi) xs
    → AreApart xs ys
    → AreApart xs (push_ring ys l)
push-right xs ys l hi e old h =
    All-map2 (IsOld hi) (λ x. All (HasOther x) ys) (λ x. All (HasOther x) (push_ring ys l))
      (λ x k other. All-push_ring (HasOther x) ys l other (λ same. omega (arith, e, k, same))) xs
      old h

none-right : (xs : List LogLine) → AreApart xs []
none-right [] = tt
none-right (x ∷ xs) = (tt, none-right xs)

module _ (e : Env) where
  push_line-Distinct :
      (id : ProcId) (stream : Stream) (m : Manager) (raw : Text)
      → 0 < length raw
      → NoFeed raw
      → Distinct m
      → Distinct (push_line e id stream m raw)
  unfolding push_line
  push_line-Distinct server stream m raw h k v = record {
    logs = push_line-LogInv e server stream m raw h k v.logs;
    apart =
        push-left m.server.logs m.daemon.logs _ m.log_seq refl
          (Rising-IsOld 0 m.daemon.logs m.log_seq v.logs.daemon.rising) v.apart;
  }
  push_line-Distinct daemon stream m raw h k v = record {
    logs = push_line-LogInv e daemon stream m raw h k v.logs;
    apart =
        push-right m.server.logs m.daemon.logs _ m.log_seq refl
          (Rising-IsOld 0 m.server.logs m.log_seq v.logs.server.rising) v.apart;
  }

  push_lines-Distinct :
      (id : ProcId) (stream : Stream) (m : Manager) (raws : List Text)
      → All NoFeed raws
      → Distinct m
      → Distinct (push_lines e id stream m raws)
  unfolding push_lines
  push_lines-Distinct id stream m [] h v = v
  push_lines-Distinct id stream m ([] ∷ rest) h v = push_lines-Distinct id stream m rest h.1 v
  push_lines-Distinct id stream m ((c ∷ raw) ∷ rest) h v =
      push_lines-Distinct id stream (push_line e id stream m (c ∷ raw)) rest h.1
        (push_line-Distinct id stream m (c ∷ raw) (omega arith) h.0 v)

  pub push_log-Distinct :
      (id : ProcId) (stream : Stream) (text : Text) (m : Manager)
      → Distinct m
      → Distinct (push_log e id stream text m)
  unfolding push_log
  push_log-Distinct id stream text m v =
      push_lines-Distinct id stream m (split_lines text) (split_lines-NoFeed text) v

pub update_status-Distinct :
    (id : ProcId) (patch : ProcStatus → ProcStatus) (m : Manager)
    → Distinct m
    → Distinct (update_status id patch m)
unfolding update_status
update_status-Distinct server patch m v = record {
  logs = update_status-LogInv server patch m v.logs;
  apart = v.apart;
}
update_status-Distinct daemon patch m v = record {
  logs = update_status-LogInv daemon patch m v.logs;
  apart = v.apart;
}

set_child-Distinct :
    (id : ProcId) (c : Option Child) (m : Manager) → Distinct m → Distinct (set_child id c m)
unfolding set_child
set_child-Distinct server c m v = record {
  logs = set_child-LogInv server c m v.logs;
  apart = v.apart;
}
set_child-Distinct daemon c m v = record {
  logs = set_child-LogInv daemon c m v.logs;
  apart = v.apart;
}

clear_logs-Distinct : (id : ProcId) (m : Manager) → Distinct m → Distinct (clear_logs id m)
unfolding clear_logs
clear_logs-Distinct server m v = record { logs = clear_logs-LogInv server m v.logs; apart = tt }
clear_logs-Distinct daemon m v = record {
  logs = clear_logs-LogInv daemon m v.logs;
  apart = none-right m.server.logs;
}

ruleset parts = (push_log-Distinct, update_status-Distinct, set_child-Distinct, clear_logs-Distinct)

pub new-Distinct : Distinct new
unfolding new blank_proc
new-Distinct = record { logs = new-LogInv; apart = tt }

module _ (e : Env) where
  launch-Distinct :
      (id : ProcId) (r : Spawned) (m : Manager) → Distinct m → Distinct (launch e id r m).0
  unfolding launch
  launch-Distinct id (refused msg) m v = search parts
  launch-Distinct id (child c) m v = search parts

  pub start-Distinct :
      (id : ProcId) (bin : Text) (args : List Text) (m : Manager)
      → Distinct m
      → Distinct (start e id bin args m).0
  unfolding boot missing
  start-Distinct id bin args m v =
      start_cases e id bin args m (λ r. Distinct r.0) (λ _. v)
        (λ _ _. launch-Distinct id (e.spawn bin args) _ (search parts)) (λ _ _. search parts)

  pub on_error-Distinct :
      (id : ProcId) (msg : Text) (m : Manager) → Distinct m → Distinct (on_error e id msg m)
  unfolding on_error
  on_error-Distinct id msg m v = search parts

  pub on_exit-Distinct :
      (id : ProcId) (code : Option ℕ) (signal : Option Text) (m : Manager)
      → Distinct m
      → Distinct (on_exit e id code signal m)
  unfolding on_exit
  on_exit-Distinct id code signal m v = search parts
