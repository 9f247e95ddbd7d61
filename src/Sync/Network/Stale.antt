-- ===== src/Sync/Network/Stale.antt =====
-- A reply that is out of date hides what the stream had told.
use dspark_edge.Base.{
  ℕ, ◌≡◌, ◌≢◌, refl, sym, ap, subst, ◌∙◌, Bool, Option, none, some, List, [], ◌∷◌, get_elem?,
  length, drop, inl, inr, drop-append, ◌≤◌, arith, All, All-append, length-append,
}
use dspark_edge.Types.{Statuses}
use dspark_edge.Store.{poll_status_done}
use dspark_edge.Api.Stream.{Chunk, backlog, live, ping}
use dspark_edge.Api.Stream.Stays.{written-heartbeat}
use dspark_edge.Sync.Network.{
  Session, SessionEvent, happens, heartbeat, reconnects, takes, asks, answers, take_next, answer,
  take_chunk, session, session_all,
}
use dspark_edge.Sync.Network.Laws.{drop-get_elem?}
use dspark_edge.Sync.Network.Written.{now, get_elem?-lt}
use dspark_edge.Sync.Network.Resync.{pending}
use dspark_edge.Sync.Network.Repair.{drop-length}

abbrev IsPing : Chunk → Type 0
IsPing ping = Unit
IsPing (live e) = ⊥
IsPing (backlog lines st) = ⊥

-- Nothing happens in the manager and no reply arrives.
abbrev pub IsQuiet : SessionEvent → Type 0
IsQuiet (happens works e ev) = ⊥
IsQuiet (heartbeat works) = Unit
IsQuiet (reconnects works) = ⊥
IsQuiet takes = Unit
IsQuiet asks = Unit
IsQuiet (answers n) = ⊥

module _ {N : Type 0} where
  -- The browser shows this status, the manager has that one, and only pings are pending.
  record Shows (st st' : Statuses) (s : Session N) : Type 0 where
    shown : s.state.status ≡ st
    truth : now s ≡ st'
    bound : s.taken ≤ length s.connection.written
    idle : All IsPing (pending s)

  beat-Shows :
      (st st' : Statuses) (works : Bool) (s : Session N)
      → Shows st st' s
      → Shows st st' (session (heartbeat works) s)
  unfolding session
  beat-Shows st st' works s v = elim (written-heartbeat works s.connection) [
    | inl same ↦ record {
      shown = v.shown;
      truth = v.truth;
      bound = subst (λ cs. s.taken ≤ length cs) (sym same) v.bound;
      idle = subst (λ cs. All IsPing (drop s.taken cs)) (sym same) v.idle;
    }
    | inr more ↦
        let longer = length-append s.connection.written (ping ∷ []) in
        record {
          shown = v.shown;
          truth = v.truth;
          bound = subst (λ cs. s.taken ≤ length cs) (sym more) (omega (arith, longer, v.bound));
          idle =
              subst (λ cs. All IsPing (drop s.taken cs)) (sym more)
                (subst (All IsPing)
                  (sym (drop-append s.taken s.connection.written (ping ∷ []) v.bound))
                  (All-append IsPing (pending s) (ping ∷ []) v.idle (tt, tt)));
        }
  ]

  ping_taken : (c : Chunk) (s : Session N) → IsPing c → take_chunk c s.state ≡ s.state
  unfolding take_chunk
  ping_taken ping s h = refl
  ping_taken (live e) s h = absurd h
  ping_taken (backlog lines st) s h = absurd h

  take-Shows :
      (st st' : Statuses) (o : Option Chunk) (s : Session N)
      → get_elem? s.connection.written s.taken ≡ o
      → Shows st st' s
      → Shows st st' (take_next o s)
  take-Shows st st' none s h v = v
  take-Shows st st' (some c) s h v =
      let idle = subst (All IsPing) (drop-get_elem? s.taken s.connection.written c h) v.idle in
      record {
        shown = ap (λ x. x.status) (ping_taken c s idle.0) ∙ v.shown;
        truth = v.truth;
        bound = get_elem?-lt s.taken s.connection.written c h;
        idle = idle.1;
      }

  quiet-Shows :
      (st st' : Statuses) (e : SessionEvent) (s : Session N)
      → IsQuiet e
      → Shows st st' s
      → Shows st st' (session e s)
  unfolding session
  quiet-Shows st st' (happens works e ev) s q v = absurd q
  quiet-Shows st st' (heartbeat works) s q v = beat-Shows st st' works s v
  quiet-Shows st st' (reconnects works) s q v = absurd q
  quiet-Shows st st' takes s q v = take-Shows st st' _ s refl v
  quiet-Shows st st' asks s q v = record {
    shown = v.shown;
    truth = v.truth;
    bound = v.bound;
    idle = v.idle;
  }
  quiet-Shows st st' (answers n) s q v = absurd q

  quiet_all-Shows :
      (st st' : Statuses) (es : List SessionEvent) (s : Session N)
      → All IsQuiet es
      → Shows st st' s
      → Shows st st' (session_all es s)
  unfolding session_all
  quiet_all-Shows st st' [] s q v = v
  quiet_all-Shows st st' (e ∷ es) s q v =
      quiet_all-Shows st st' es (session e s) q.1 (quiet-Shows st st' e s q.0 v)

  answer-Shows :
      (st : Statuses) (n : ℕ) (o : Option Statuses) (s : Session N)
      → o ≡ some st
      → s.taken ≡ length s.connection.written
      → Shows st (now s) (answer n o s)
  unfolding poll_status_done
  answer-Shows st n none s h all = absurd (cc)
  answer-Shows st n (some x) s h all = record {
    shown = ground (arith);
    truth = refl;
    bound = omega arith;
    idle =
        subst (λ k. All IsPing (drop k s.connection.written)) (sym all)
          (subst (All IsPing) (sym (drop-length s.connection.written)) tt);
  }

  -- When a reply that differs from the manager's status of now arrives at a browser that has taken
  -- all that was written, the browser shows that reply instead of the manager's status, and goes on
  -- to do so while nothing happens in the manager, no further reply arrives and the connection stays.
  pub stale_reply_shown :
      (s : Session N) (n : ℕ) (st : Statuses) (es : List SessionEvent)
      → s.taken ≡ length s.connection.written
      → get_elem? s.replies n ≡ some st
      → st ≢ now s
      → All IsQuiet es
      → let s' = session_all es (session (answers n) s) in
        (s'.state.status ≡ st) × (s'.state.status ≢ now s')
  unfolding session
  stale_reply_shown s n st es all there differs q =
      let v =
        quiet_all-Shows st (now s) es (answer n (get_elem? s.replies n) s) q
          (answer-Shows st n (get_elem? s.replies n) s there all) in
      (v.shown, λ same. differs (sym v.shown ∙ same ∙ v.truth))
