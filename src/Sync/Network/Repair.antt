-- ===== src/Sync/Network/Repair.antt =====
-- What the browser shows after any interleaving, and after one that repairs it.
use dspark_edge.Base.{
  ◌≡◌, refl, sym, ap, subst, ◌∙◌, true, false, some, List, [], ◌∷◌, get_elem?, length, drop,
}
use dspark_edge.Process.{Env}
use dspark_edge.Store.{AppState, poll_status_done}
use dspark_edge.World.{World, Event, run, initial}
use dspark_edge.World.Followed.{run-HasIds}
use dspark_edge.Sync.Network.{
  Session, SessionEvent, happens, heartbeat, reconnects, takes, asks, answers, answer, connected,
  session, session_all, open_page,
}
use dspark_edge.Sync.Network.Laws.{status_after}
use dspark_edge.Sync.Network.Written.{now, Base, connected-Base, answers-Base}
use dspark_edge.Sync.Network.Resync.{
  InSync, Fair, Ahead, connected-Ahead, pending_now, session_all-InSync, session_all-Base,
}

pub drop-length : {A : Type 0} (xs : List A) → drop (length xs) xs ≡ []
drop-length [] = refl
drop-length (x ∷ xs) = drop-length xs

module _ {N : Type 0} where
  InSync-shown :
      (s : Session N) → InSync s → s.taken ≡ length s.connection.written → s.state.status ≡ now s
  InSync-shown s v all =
      ap (λ cs. status_after cs s.state.status)
        (sym (ap (λ n. drop n s.connection.written) all ∙ drop-length s.connection.written))
      ∙ v.ahead

  -- A connection that is opened anew, or a reply that carries the present status over an open one.
  abbrev pub Repairs : SessionEvent → Session N → Type 0
  Repairs (happens works e ev) s = ⊥
  Repairs (heartbeat works) s = ⊥
  Repairs (reconnects works) s = works ≡ true
  Repairs takes s = ⊥
  Repairs asks s = ⊥
  Repairs (answers n) s = (s.connection.closed ≡ false) × (get_elem? s.replies n ≡ some (now s))

  page-Base : (past : List (Env × Event)) (s : AppState N) → Base (open_page (run past initial) s)
  unfolding open_page
  page-Base past s = connected-Base true (open_page (run past initial) s) (run-HasIds past)

  page-Ahead : (w : World) (s : AppState N) → Ahead (open_page w s)
  unfolding open_page
  page-Ahead w s = connected-Ahead (open_page w s)

  repaired : (e : SessionEvent) (s : Session N) → Repairs e s → Base s → InSync (session e s)
  unfolding session poll_status_done
  repaired (happens works e ev) s r b = absurd r
  repaired (heartbeat works) s r b = absurd r
  repaired (reconnects works) s r b =
      let (still, ahead) = connected-Ahead s in
      subst (λ x. InSync (connected x s)) (sym r)
        (record { base = connected-Base true s b.ids; open_still = still; ahead = ahead })
  repaired takes s r b = absurd r
  repaired asks s r b = absurd r
  repaired (answers n) s r b =
      subst (λ o. InSync (answer n o s)) (sym r.1)
        (record {
          base = answers-Base n (some (now s)) s b;
          open_still = r.0;
          ahead = pending_now s b r.0;
        })

  -- A page that is opened in a world that `past` leads to, after these events.
  abbrev pub page : List (Env × Event) → List SessionEvent → AppState N → Session N
  page past es s = session_all es (open_page (run past initial) s)

  -- A page that is opened in any reachable world, and from then on any interleaving of what the
  -- manager does, heartbeats, new connections, polls and their replies, of which no write fails and
  -- no reply is out of date when it arrives: once the browser has taken all that was written, it
  -- shows the manager's status of both processes.
  pub page_shows_now :
      (past : List (Env × Event)) (es : List SessionEvent) (s : AppState N)
      → Fair es (page past [] s)
      → (page past es s).taken ≡ length (page past es s).connection.written
      → (page past es s).state.status ≡ now (page past es s)
  unfolding session_all
  page_shows_now past es s f all =
      let (still, ahead) = page-Ahead (run past initial) s in
      let start : InSync (page past [] s) = record {
        base = page-Base past s;
        open_still = still;
        ahead = ahead;
      } in
      InSync-shown (page past es s) (session_all-InSync es (page past [] s) f start) all

  -- Whatever came before, writes that failed and replies that were out of date included: after a new
  -- connection, or after a reply that carries the present status over an open connection, and then
  -- any interleaving in which no write fails and no reply is out of date when it arrives, a browser
  -- that has taken all that was written shows the manager's status of both processes.
  pub repaired_shows_now :
      (past : List (Env × Event)) (before : List SessionEvent) (e : SessionEvent)
      (after : List SessionEvent) (s : AppState N)
      → Repairs e (page past before s)
      → Fair after (session e (page past before s))
      → (session_all after (session e (page past before s))).taken
        ≡ length (session_all after (session e (page past before s))).connection.written
      → (session_all after (session e (page past before s))).state.status
        ≡ now (session_all after (session e (page past before s)))
  repaired_shows_now past before e after s r f =
      let b = session_all-Base before (open_page (run past initial) s) (page-Base past s) in
      InSync-shown _ (
        session_all-InSync after (session e (page past before s)) f
          (repaired e (page past before s) r b))
