-- ===== src/Sync/Network/Written.antt =====
-- What an open connection has written leads to the manager's status, whatever happens.
use dspark_edge.Base.{
  ℕ, zero, suc, ◌≤◌, ◌<◌, ◌≡◌, refl, sym, ap, ◌∙◌, Bool, true, false, Option, none, some, List, [],
  ◌∷◌, map, arith, get_elem?, length, drop, Bool-cases, inl, inr,
}
use dspark_edge.Types.{Statuses}
use dspark_edge.Process.{Env, Manager, Emission, all_status}
use dspark_edge.Process.Emitted.{HasIds, replay, IsFollowed}
use dspark_edge.World.{World, Event, step}
use dspark_edge.Api.Stream.{Chunk, live, ping, Connection, open_stream, emits, beats, handle_all}
use dspark_edge.Api.Stream.Laws.{handle_all_open, handle_all_closed}
use dspark_edge.Api.Stream.Stays.{
  open_stream_fields, written-open_stream, Lasts, handle_all-Stays, handle_all-fails,
  heartbeat_fails,
}
use dspark_edge.Sync.Network.{
  Session, SessionEvent, happens, heartbeat, reconnects, takes, asks, answers, notify, take_next,
  answer, connected, session,
}
use dspark_edge.Sync.Network.Laws.{
  status_after, status_after-append, status_after-live, notify_open, step-IsFollowed, news,
}

pub get_elem?-lt :
    {A : Type 0} (n : ℕ) (xs : List A) (x : A) → get_elem? xs n ≡ some x → n < length xs
get_elem?-lt n [] x h = absurd (cc)
get_elem?-lt zero (y ∷ xs) x h = omega arith
get_elem?-lt (suc n) (y ∷ xs) x h = omega (arith, get_elem?-lt n xs x h)

-- The manager's status of both processes.
abbrev pub now : {N : Type 0} → Session N → Statuses
now s = all_status s.world.manager

-- What a connection that is open has written leads to the status of now.
abbrev pub Leads : Connection → Statuses → Type 0
Leads c st = c.closed ≡ false → (x : Statuses) → status_after c.written x ≡ st

pub record Base {N : Type 0} (s : Session N) : Type 0 where
  pub listening : s.connection.listening ≡ true
  pub beating : s.connection.beating ≡ true
  pub bound : s.taken ≤ length s.connection.written
  pub ids : HasIds (now s)
  pub leads : Leads s.connection (now s)

pub emits-Lasts : (works : Bool) (es : List Emission) → Lasts (map (emits works) es)
emits-Lasts works [] = tt
emits-Lasts works (e ∷ es) = emits-Lasts works es

-- What a step of the world tells the connection keeps it leading to the status.
notify-Leads :
    (works : Bool) (e : Env) (ev : Event) (w : World) (c : Connection)
    → HasIds (all_status w.manager)
    → c.listening ≡ true
    → c.beating ≡ true
    → Leads c (all_status w.manager)
    → let w' = step e ev w in
      Leads (notify works (length w.manager.emitted) w' c) (all_status w'.manager)
notify-Leads true e ev w c ids l b leads h x = elim (Bool-cases c.closed) [
  | inl shut ↦
      let same : (notify true (length w.manager.emitted) (step e ev w) c).closed ≡ c.closed =
        ap (λ d. d.closed) (handle_all_closed _ c shut) in
      absurd (cc (same, shut, h))
  | inr open_now ↦
      let (es, same, led) = notify_open e ev w c ids (open_now, l, b) in
      ap (λ d. status_after d.written x) same
      ∙ status_after-append c.written (map live es) x
      ∙ status_after-live es (status_after c.written x)
      ∙ ap (replay es) (leads open_now x)
      ∙ led
]
notify-Leads false e ev w c ids l b leads h x =
    let v = step-IsFollowed e ev w ids in
    let (silent, same) = handle_all-fails _ c l h in
    let still = ap (λ es. replay es (all_status w.manager)) (sym (news _ _ v) ∙ silent) in
    ap (λ d. status_after d.written x) same
    ∙ leads (ap (λ d. d.closed) (sym same) ∙ h) x
    ∙ sym still
    ∙ v.replayed

beats-Leads :
    (works : Bool) (c : Connection) (st : Statuses)
    → c.listening ≡ true
    → c.beating ≡ true
    → Leads c st
    → Leads (handle_all (beats works ∷ []) c) st
beats-Leads true c st l b leads h x = elim (Bool-cases c.closed) [
  | inl shut ↦ absurd (cc (ap (λ d. d.closed) (handle_all_closed (beats true ∷ []) c shut), h))
  | inr open_now ↦
      ap (λ d. status_after d.written x)
        (handle_all_open (beats true ∷ []) c (refl, tt) (open_now, l, b))
      ∙ status_after-append c.written (ping ∷ []) x
      ∙ leads open_now x
]
beats-Leads false c st l b leads h x = absurd (cc (heartbeat_fails c b, h))

open_stream-Leads : (works : Bool) (m : Manager) → Leads (open_stream works m) (all_status m)
open_stream-Leads true m h x = ap (λ cs. status_after cs x) (written-open_stream m)
open_stream-Leads false m h x = let (l, b, shut) = open_stream_fields false m in absurd (cc)

pub step-HasIds :
    (e : Env) (ev : Event) (w : World)
    → HasIds (all_status w.manager)
    → HasIds (all_status (step e ev w).manager)
step-HasIds e ev w ids =
    let v : IsFollowed w.manager (step e ev w).manager = step-IsFollowed e ev w ids in v.ids

module _ {N : Type 0} where
  happens-Base :
      (works : Bool) (e : Env) (ev : Event) (s : Session N)
      → Base s
      → Base (session (happens works e ev) s)
  unfolding session
  happens-Base works e ev s b =
      let es = drop (length s.world.manager.emitted) (step e ev s.world).manager.emitted in
      let (l, h, grown) =
        handle_all-Stays (map (emits works) es) s.connection (emits-Lasts works es) in
      record {
        listening = l ∙ b.listening;
        beating = h ∙ b.beating;
        bound = omega arith;
        ids = step-HasIds e ev s.world b.ids;
        leads = notify-Leads works e ev s.world s.connection b.ids b.listening b.beating b.leads;
      }

  heartbeat-Base : (works : Bool) (s : Session N) → Base s → Base (session (heartbeat works) s)
  unfolding session
  heartbeat-Base works s b =
      let (l, h, grown) = handle_all-Stays (beats works ∷ []) s.connection tt in
      record {
        listening = l ∙ b.listening;
        beating = h ∙ b.beating;
        bound = omega arith;
        ids = b.ids;
        leads = beats-Leads works s.connection (now s) b.listening b.beating b.leads;
      }

  pub connected-Base : (works : Bool) (s : Session N) → HasIds (now s) → Base (connected works s)
  connected-Base works s ids =
      let (l, h, shut) = open_stream_fields works s.world.manager in
      record {
        listening = l;
        beating = h;
        bound = omega arith;
        ids = ids;
        leads = open_stream-Leads works s.world.manager;
      }

  takes-Base :
      (o : Option Chunk) (s : Session N)
      → get_elem? s.connection.written s.taken ≡ o
      → Base s
      → Base (take_next o s)
  takes-Base none s h b = b
  takes-Base (some c) s h b = record {
    listening = b.listening;
    beating = b.beating;
    bound = get_elem?-lt s.taken s.connection.written c h;
    ids = b.ids;
    leads = b.leads;
  }

  pub answers-Base : (n : ℕ) (o : Option Statuses) (s : Session N) → Base s → Base (answer n o s)
  answers-Base n none s b = b
  answers-Base n (some st) s b = record {
    listening = b.listening;
    beating = b.beating;
    bound = b.bound;
    ids = b.ids;
    leads = b.leads;
  }

  pub session-Base : (ev : SessionEvent) (s : Session N) → Base s → Base (session ev s)
  unfolding session
  session-Base (happens works e ev) s b = happens-Base works e ev s b
  session-Base (heartbeat works) s b = heartbeat-Base works s b
  session-Base (reconnects works) s b = connected-Base works s b.ids
  session-Base takes s b = takes-Base _ s refl b
  session-Base asks s b = record {
    listening = b.listening;
    beating = b.beating;
    bound = b.bound;
    ids = b.ids;
    leads = b.leads;
  }
  session-Base (answers n) s b = answers-Base n (get_elem? s.replies n) s b
