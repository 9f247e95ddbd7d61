-- ===== src/Api/Stream/Stays.antt =====
-- What events leave of a connection while its request lasts.
use dspark_edge.Base.{
  ◌≤◌, ◌≡◌, refl, ap, Bool, true, false, not, List, [], ◌∷◌, ◌++◌, arith, map, length,
  length-append, take_last, All, All-append, ◌⊎◌,
}
use dspark_edge.Process.{Emission, Manager, all_status}
use dspark_edge.Process.All.{all_logs}
use dspark_edge.Sync.{max_backlog}
use dspark_edge.Api.Stream.{
  Chunk, backlog, live, ping, Connection, open_stream, send, StreamEvent, emits, beats, leaves,
  handle, handle_all,
}
use dspark_edge.Api.Stream.Laws.{handle_all_closed}

-- A connection that was just opened.
pub open_stream_fields :
    (works : Bool) (m : Manager)
    → let c = open_stream works m in
      (c.listening ≡ true) × (c.beating ≡ true) × (c.closed ≡ not works)
unfolding open_stream send
open_stream_fields true m = (refl, refl, refl)
open_stream_fields false m = (refl, refl, refl)

pub written-open_stream :
    (m : Manager)
    → (open_stream true m).written
      ≡ backlog (take_last max_backlog (all_logs 0 m)) (all_status m) ∷ []
unfolding open_stream send
written-open_stream m = refl

pub open_stream-All :
    (P : Chunk → Type 0) (works : Bool) (m : Manager)
    → P (backlog (take_last max_backlog (all_logs 0 m)) (all_status m))
    → All P (open_stream works m).written
unfolding open_stream send
open_stream-All P true m h = (h, tt)
open_stream-All P false m h = tt

abbrev pub Lasts : List StreamEvent → Type 0
Lasts [] = Unit
Lasts (emits works e ∷ es) = Lasts es
Lasts (beats works ∷ es) = Lasts es
Lasts (leaves ∷ es) = ⊥

abbrev Stays : Connection → Connection → Type 0
Stays c d =
    (d.listening ≡ c.listening) × (d.beating ≡ c.beating) × (length c.written ≤ length d.written)

send-Stays : (works : Bool) (chunk : Chunk) (c : Connection) → Stays c (send works chunk c)
unfolding send
send-Stays works chunk c = ground (arith, length-append c.written (chunk ∷ []))

handle-Stays : (e : StreamEvent) (c : Connection) → Lasts (e ∷ []) → Stays c (handle e c)
unfolding handle
handle-Stays (emits works e) c h = ground (arith, send-Stays works (live e) c)
handle-Stays (beats works) c h = ground (arith, send-Stays works ping c)
handle-Stays leaves c h = absurd h

-- As long as the request lasts, the listeners and the heartbeat stay, and what was written stays.
pub handle_all-Stays :
    (es : List StreamEvent) (c : Connection)
    → Lasts es
    → let d = handle_all es c in
      (d.listening ≡ c.listening) × (d.beating ≡ c.beating) × (length c.written ≤ length d.written)
unfolding handle_all
handle_all-Stays [] c h = (refl, refl, omega arith)
handle_all-Stays (emits works e ∷ es) c h =
    ground
      (arith, handle-Stays (emits works e) c tt, handle_all-Stays es (handle (emits works e) c) h)
handle_all-Stays (beats works ∷ es) c h =
    ground (arith, handle-Stays (beats works) c tt, handle_all-Stays es (handle (beats works) c) h)
handle_all-Stays (leaves ∷ es) c h = absurd h

handle-fails :
    (e : Emission) (c : Connection) → c.listening ≡ true → (handle (emits false e) c).closed ≡ true
unfolding handle send
handle-fails e c l = ground arith

-- A connection that listens and is still open after failing writes was told of nothing.
pub handle_all-fails :
    (es : List Emission) (c : Connection)
    → c.listening ≡ true
    → (handle_all (map (emits false) es) c).closed ≡ false
    → (es ≡ []) × (handle_all (map (emits false) es) c ≡ c)
unfolding handle_all
handle_all-fails [] c l h = (refl, refl)
handle_all-fails (e ∷ es) c l h =
    let shut = handle-fails e c l in
    let same =
      ap (λ d. d.closed)
        (handle_all_closed (map (emits false) es) (handle (emits false e) c) shut) in
    absurd (cc (shut, same))

pub heartbeat_fails :
    (c : Connection) → c.beating ≡ true → (handle_all (beats false ∷ []) c).closed ≡ true
unfolding handle_all handle send
heartbeat_fails c b = ground arith

-- A heartbeat writes a ping or nothing.
pub written-heartbeat :
    (works : Bool) (c : Connection)
    → let d = handle_all (beats works ∷ []) c in
      (d.written ≡ c.written) ⊎ (d.written ≡ c.written ++ ping ∷ [])
unfolding handle_all handle send
written-heartbeat works c = ground arith

module _ (P : Chunk → Type 0) (of_live : (e : Emission) → P (live e)) (of_ping : P ping) where
  send-All :
      (works : Bool) (chunk : Chunk) (c : Connection)
      → P chunk
      → All P c.written
      → All P (send works chunk c).written
  unfolding send
  send-All works chunk c p h = ground (arith, All-append P c.written (chunk ∷ []) h (p, tt))

  -- What holds of every emission and of a ping is kept by all that is written.
  pub handle_all-All :
      (es : List StreamEvent) (c : Connection)
      → Lasts es
      → All P c.written
      → All P (handle_all es c).written
  unfolding handle_all handle
  handle_all-All [] c l h = h
  handle_all-All (emits works e ∷ es) c l h =
      handle_all-All es (handle (emits works e) c) l
        (ground (arith, send-All works (live e) c (of_live e) h))
  handle_all-All (beats works ∷ es) c l h =
      handle_all-All es (handle (beats works) c) l (ground (arith, send-All works ping c of_ping h))
  handle_all-All (leaves ∷ es) c l h = absurd l
