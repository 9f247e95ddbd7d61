-- ===== src/Sync/Network/Shapes.antt =====
-- Each slot of the browser's status holds a status of its own process.
use dspark_edge.Base.{
  ℕ, zero, suc, ◌≡◌, refl, subst, true, Option, none, some, List, [], ◌∷◌, get_elem?, length, drop,
  All, All-append, map,
}
use dspark_edge.Types.{ProcId, server, daemon, ProcStatus, Statuses}
use dspark_edge.Process.{Env, log, status}
use dspark_edge.Process.Emitted.{HasIds}
use dspark_edge.Store.{AppState, put_status, poll_status_done}
use dspark_edge.World.{Event, step, run, initial}
use dspark_edge.World.Followed.{run-HasIds}
use dspark_edge.Api.Stream.{Chunk, backlog, live, ping, beats, emits}
use dspark_edge.Api.Stream.Stays.{open_stream-All, handle_all-All}
use dspark_edge.Sync.Network.{
  Session, SessionEvent, happens, heartbeat, reconnects, takes, asks, answers, take_next, answer,
  take_chunk, remove_at, session, session_all, open_page,
}
use dspark_edge.Sync.Network.Laws.{status-take_chunk}
use dspark_edge.Sync.Network.Written.{now, emits-Lasts, step-HasIds}

put_in-HasIds :
    (id : ProcId) (st : ProcStatus) (s : Statuses)
    → st.id ≡ id
    → HasIds s
    → HasIds (put_status id st s)
put_in-HasIds server st s e h = (e, h.1)
put_in-HasIds daemon st s e h = (h.0, e)

put_status-HasIds : (st : ProcStatus) (s : Statuses) → HasIds s → HasIds (put_status st.id st s)
put_status-HasIds st s h = put_in-HasIds st.id st s refl h

abbrev ChunkHasIds : Chunk → Type 0
ChunkHasIds (backlog lines st) = HasIds st
ChunkHasIds (live e) = Unit
ChunkHasIds ping = Unit

All-get_elem? :
    {A : Type 0} (P : A → Type 0) (n : ℕ) (xs : List A) (x : A)
    → get_elem? xs n ≡ some x
    → All P xs
    → P x
All-get_elem? P n [] x h v = absurd (cc)
All-get_elem? P zero (y ∷ xs) x h v = subst P (cc) v.0
All-get_elem? P (suc n) (y ∷ xs) x h v = All-get_elem? P n xs x h v.1

All-remove_at :
    {A : Type 0} (P : A → Type 0) (n : ℕ) (xs : List A) → All P xs → All P (remove_at n xs)
All-remove_at P n [] v = tt
All-remove_at P zero (x ∷ xs) v = v.1
All-remove_at P (suc n) (x ∷ xs) v = (v.0, All-remove_at P n xs v.1)

module _ {N : Type 0} where
  record Named (s : Session N) : Type 0 where
    truth : HasIds (now s)
    shown : HasIds s.state.status
    replies : All HasIds s.replies
    chunks : All ChunkHasIds s.connection.written

  taken-HasIds :
      (c : Chunk) (s : AppState N)
      → ChunkHasIds c
      → HasIds s.status
      → HasIds (take_chunk c s).status
  taken-HasIds (backlog lines st) s k h = rw (status-take_chunk (backlog lines st) s) k
  taken-HasIds (live (log line)) s k h = rw (status-take_chunk (live (log line)) s) h
  taken-HasIds (live (status st)) s k h =
      rw (status-take_chunk (live (status st)) s) (put_status-HasIds st s.status h)
  taken-HasIds ping s k h = rw (status-take_chunk ping s) h

  take-Named :
      (o : Option Chunk) (s : Session N)
      → get_elem? s.connection.written s.taken ≡ o
      → Named s
      → Named (take_next o s)
  take-Named none s h v = v
  take-Named (some c) s h v = record {
    truth = v.truth;
    shown =
        taken-HasIds c s.state (All-get_elem? ChunkHasIds s.taken s.connection.written c h v.chunks)
          v.shown;
    replies = v.replies;
    chunks = v.chunks;
  }

  answer-Named :
      (n : ℕ) (o : Option Statuses) (s : Session N)
      → get_elem? s.replies n ≡ o
      → Named s
      → Named (answer n o s)
  unfolding poll_status_done
  answer-Named n none s h v = v
  answer-Named n (some st) s h v = record {
    truth = v.truth;
    shown = All-get_elem? HasIds n s.replies st h v.replies;
    replies = All-remove_at HasIds n s.replies v.replies;
    chunks = v.chunks;
  }

  session-Named : (e : SessionEvent) (s : Session N) → Named s → Named (session e s)
  unfolding session
  session-Named (happens works e ev) s v =
      let es = drop (length s.world.manager.emitted) (step e ev s.world).manager.emitted in
      record {
        truth = step-HasIds e ev s.world v.truth;
        shown = v.shown;
        replies = v.replies;
        chunks =
            handle_all-All ChunkHasIds (λ e. tt) tt (map (emits works) es) s.connection
              (emits-Lasts works es) v.chunks;
      }
  session-Named (heartbeat works) s v = record {
    truth = v.truth;
    shown = v.shown;
    replies = v.replies;
    chunks = handle_all-All ChunkHasIds (λ e. tt) tt (beats works ∷ []) s.connection tt v.chunks;
  }
  session-Named (reconnects works) s v = record {
    truth = v.truth;
    shown = v.shown;
    replies = v.replies;
    chunks = open_stream-All ChunkHasIds works s.world.manager v.truth;
  }
  session-Named takes s v = take-Named _ s refl v
  session-Named asks s v = record {
    truth = v.truth;
    shown = v.shown;
    replies = All-append HasIds s.replies (now s ∷ []) v.replies (v.truth, tt);
    chunks = v.chunks;
  }
  session-Named (answers n) s v = answer-Named n _ s refl v

  session_all-Named : (es : List SessionEvent) (s : Session N) → Named s → Named (session_all es s)
  unfolding session_all
  session_all-Named [] s v = v
  session_all-Named (e ∷ es) s v = session_all-Named es (session e s) (session-Named e s v)

  -- On a page that is opened in any reachable world, after any interleaving, writes that fail and
  -- replies that are late included, the slot of each process holds a status of that process.
  pub page-HasIds :
      (past : List (Env × Event)) (es : List SessionEvent) (s : AppState N)
      → HasIds s.status
      → HasIds (session_all es (open_page (run past initial) s)).state.status
  unfolding open_page
  page-HasIds past es s h =
      let w = run past initial in
      let v = session_all-Named es (open_page w s) (record {
        truth = run-HasIds past;
        shown = h;
        replies = tt;
        chunks = open_stream-All ChunkHasIds true w.manager (run-HasIds past);
      }) in
      v.shown
