-- ===== src/Sync/Network/Resync.antt =====
-- When the browser is in line with the manager, and what brings it back.
use dspark_edge.Base.{
  ℕ, suc, ◌≡◌, refl, sym, ap, subst, ◌∙◌, true, false, Option, none, some, List, [], ◌∷◌, ◌++◌, map,
  get_elem?, drop, drop-append,
}
use dspark_edge.Types.{Statuses}
use dspark_edge.Process.{Env}
use dspark_edge.Store.{poll_status_done}
use dspark_edge.World.{World, Event}
use dspark_edge.Api.Stream.{Chunk, live, ping, beats}
use dspark_edge.Api.Stream.Laws.{handle_all_open}
use dspark_edge.Api.Stream.Stays.{open_stream_fields, written-open_stream}
use dspark_edge.Sync.Network.{
  Session, SessionEvent, happens, heartbeat, reconnects, takes, asks, answers, take_next, answer,
  connected, session, session_all,
}
use dspark_edge.Sync.Network.Laws.{
  status_after, status_after-append, status_after-live, status_after_idem, status_after-rest,
  status-take_chunk, drop-get_elem?, notify_open,
}
use dspark_edge.Sync.Network.Written.{now, Base, session-Base}

module _ {N : Type 0} where
  -- The chunks that the browser has not taken yet.
  abbrev pub pending : Session N → List Chunk
  pending s = drop s.taken s.connection.written

  -- The connection is open, and once the browser has taken what is pending, it shows the manager's
  -- status.
  pub record InSync (s : Session N) : Type 0 where
    pub base : Base s
    pub open_still : s.connection.closed ≡ false
    pub ahead : status_after (pending s) s.state.status ≡ now s

  -- A write that fails and a reply that is out of date are not fair.
  abbrev pub FairAnswer : Option Statuses → Session N → Type 0
  FairAnswer none s = Unit
  FairAnswer (some st) s = st ≡ now s

  abbrev pub FairEvent : SessionEvent → Session N → Type 0
  FairEvent (happens works e ev) s = works ≡ true
  FairEvent (heartbeat works) s = works ≡ true
  FairEvent (reconnects works) s = works ≡ true
  FairEvent takes s = Unit
  FairEvent asks s = Unit
  FairEvent (answers n) s = FairAnswer (get_elem? s.replies n) s

  abbrev pub Fair : List SessionEvent → Session N → Type 0
  Fair [] s = Unit
  Fair (e ∷ es) s = FairEvent e s × Fair es (session e s)

  -- The parts of `InSync` beside `Base`.
  abbrev pub Ahead : Session N → Type 0
  Ahead s = (s.connection.closed ≡ false) × (status_after (pending s) s.state.status ≡ now s)

  written_ahead :
      (cs : List Chunk) (s : Session N) (w : World) (st : Statuses)
      → InSync s
      → status_after cs (now s) ≡ st
      → status_after (drop s.taken (s.connection.written ++ cs)) s.state.status ≡ st
  written_ahead cs s w st v led =
      ap (λ ds. status_after ds s.state.status)
        (drop-append s.taken s.connection.written cs v.base.bound)
      ∙ status_after-append (pending s) cs s.state.status
      ∙ ap (status_after cs) v.ahead
      ∙ led

  happens-Ahead :
      (e : Env) (ev : Event) (s : Session N) → InSync s → Ahead (session (happens true e ev) s)
  unfolding session
  happens-Ahead e ev s v =
      let (es, same, led) =
        notify_open e ev s.world s.connection v.base.ids
          (v.open_still, v.base.listening, v.base.beating) in
      (
        ap (λ c. c.closed) same ∙ v.open_still,
        ap (λ c. status_after (drop s.taken c.written) s.state.status) same
            ∙ written_ahead (map live es) s s.world _ v (status_after-live es (now s) ∙ led),
      )

  heartbeat-Ahead : (s : Session N) → InSync s → Ahead (session (heartbeat true) s)
  unfolding session
  heartbeat-Ahead s v =
      let same =
        handle_all_open (beats true ∷ []) s.connection (refl, tt)
          (v.open_still, v.base.listening, v.base.beating) in
      (
        ap (λ c. c.closed) same ∙ v.open_still,
        ap (λ c. status_after (drop s.taken c.written) s.state.status) same
            ∙ written_ahead (ping ∷ []) s s.world _ v refl,
      )

  pub connected-Ahead : (s : Session N) → Ahead (connected true s)
  connected-Ahead s =
      let (l, b, shut) = open_stream_fields true s.world.manager in
      (shut, ap (λ cs. status_after cs s.state.status) (written-open_stream s.world.manager))

  takes-Ahead :
      (o : Option Chunk) (s : Session N)
      → get_elem? s.connection.written s.taken ≡ o
      → InSync s
      → Ahead (take_next o s)
  takes-Ahead none s h v = (v.open_still, v.ahead)
  takes-Ahead (some c) s h v =
      let rest = drop (suc s.taken) s.connection.written in
      (
        v.open_still,
        ap (status_after rest) (status-take_chunk c s.state)
            ∙ sym (status_after-append (c ∷ []) rest s.state.status)
            ∙ ap (λ cs. status_after cs s.state.status)
                (sym (drop-get_elem? s.taken s.connection.written c h))
            ∙ v.ahead,
      )

  -- What an open connection has written changes nothing of the manager's status.
  pub pending_now :
      (s : Session N)
      → Base s
      → s.connection.closed ≡ false
      → status_after (pending s) (now s) ≡ now s
  pending_now s b o =
      let (x, same) = status_after-rest s.taken s.connection.written (now s) in
      let led : status_after (pending s) x ≡ now s = sym same ∙ b.leads o (now s) in
      ap (status_after (pending s)) (sym led) ∙ status_after_idem (pending s) x ∙ led

  answer-Ahead :
      (n : ℕ) (o : Option Statuses) (s : Session N)
      → FairAnswer o s
      → InSync s
      → Ahead (answer n o s)
  unfolding poll_status_done
  answer-Ahead n none s f v = (v.open_still, v.ahead)
  answer-Ahead n (some st) s f v =
      (v.open_still, ap (status_after (pending s)) f ∙ pending_now s v.base v.open_still)

  session-Ahead :
      (e : SessionEvent) (s : Session N) → FairEvent e s → InSync s → Ahead (session e s)
  unfolding session
  session-Ahead (happens works e ev) s f v =
      subst (λ x. Ahead (session (happens x e ev) s)) (sym f) (happens-Ahead e ev s v)
  session-Ahead (heartbeat works) s f v =
      subst (λ x. Ahead (session (heartbeat x) s)) (sym f) (heartbeat-Ahead s v)
  session-Ahead (reconnects works) s f v =
      subst (λ x. Ahead (connected x s)) (sym f) (connected-Ahead s)
  session-Ahead takes s f v = takes-Ahead _ s refl v
  session-Ahead asks s f v = (v.open_still, v.ahead)
  session-Ahead (answers n) s f v = answer-Ahead n (get_elem? s.replies n) s f v

  session-InSync :
      (e : SessionEvent) (s : Session N) → FairEvent e s → InSync s → InSync (session e s)
  session-InSync e s f v =
      let (still, ahead) = session-Ahead e s f v in
      record { base = session-Base e s v.base; open_still = still; ahead = ahead }

  pub session_all-InSync :
      (es : List SessionEvent) (s : Session N) → Fair es s → InSync s → InSync (session_all es s)
  unfolding session_all
  session_all-InSync [] s f v = v
  session_all-InSync (e ∷ es) s f v =
      session_all-InSync es (session e s) f.1 (session-InSync e s f.0 v)

  pub session_all-Base : (es : List SessionEvent) (s : Session N) → Base s → Base (session_all es s)
  unfolding session_all
  session_all-Base [] s b = b
  session_all-Base (e ∷ es) s b = session_all-Base es (session e s) (session-Base e s b)
