-- ===== src/Sync/Network/Laws.antt =====
-- What is under way to the browser leads to the manager's status.
use dspark_edge.Base.{
  ℕ, zero, suc, ◌≡◌, refl, sym, ap, ◌∙◌, true, some, List, [], ◌∷◌, ◌++◌, map, arith, get_elem?,
  length, drop, ◌⊎◌, inl, inr,
}
use dspark_edge.Types.{ProcId, server, daemon, ProcStatus, Statuses, status_in}
use dspark_edge.Process.{Env, Manager, Emission, log, status, all_status}
use dspark_edge.Process.Emitted.{replay, HasIds, IsFollowed, base-IsFollowed}
use dspark_edge.Store.{AppState, put_status, set_backlog, set_status, append_log}
use dspark_edge.World.{World, Event, step, run}
use dspark_edge.World.Followed.{run-IsFollowed}
use dspark_edge.Api.Stream.{Chunk, backlog, live, ping, Connection, emits, handle_all}
use dspark_edge.Api.Stream.Laws.{IsOpen, AllWork, delivered, handle_all_open}
use dspark_edge.Sync.{receive}
use dspark_edge.Sync.Network.{notify, take_chunk}

-- The status that chunks leave.
abbrev pub status_after : List Chunk → Statuses → Statuses
status_after [] s = s
status_after (backlog lines st ∷ cs) s = status_after cs st
status_after (live e ∷ cs) s = status_after cs (replay (e ∷ []) s)
status_after (ping ∷ cs) s = status_after cs s

pub status_after-append :
    (cs ds : List Chunk) (s : Statuses)
    → status_after (cs ++ ds) s ≡ status_after ds (status_after cs s)
status_after-append [] ds s = refl
status_after-append (backlog lines st ∷ cs) ds s = status_after-append cs ds st
status_after-append (live e ∷ cs) ds s = status_after-append cs ds (replay (e ∷ []) s)
status_after-append (ping ∷ cs) ds s = status_after-append cs ds s

pub status_after-live :
    (es : List Emission) (s : Statuses) → status_after (map live es) s ≡ replay es s
status_after-live [] s = refl
status_after-live (log line ∷ es) s = status_after-live es s
status_after-live (status st ∷ es) s = status_after-live es (put_status st.id st s)

-- Chunks leave the status of a process as it was, or they set it whatever it was.
abbrev KeepsOrSets : (Statuses → Statuses) → ProcId → Type 0
KeepsOrSets f id =
    ((s : Statuses) → status_in (f s) id ≡ status_in s id)
    ⊎ ((st : ProcStatus) × ((s : Statuses) → status_in (f s) id ≡ st))

put_status-KeepsOrSets : (j id : ProcId) (st : ProcStatus) → KeepsOrSets (put_status j st) id
put_status-KeepsOrSets server server st = inr (st, λ s. refl)
put_status-KeepsOrSets server daemon st = inl (λ s. refl)
put_status-KeepsOrSets daemon server st = inl (λ s. refl)
put_status-KeepsOrSets daemon daemon st = inr (st, λ s. refl)

compose-KeepsOrSets :
    (f g : Statuses → Statuses) (id : ProcId)
    → KeepsOrSets f id
    → KeepsOrSets g id
    → KeepsOrSets (λ s. g (f s)) id
compose-KeepsOrSets f g id (inl k) (inl l) = inl (λ s. l (f s) ∙ k s)
compose-KeepsOrSets f g id (inr (st, k)) (inl l) = inr (st, λ s. l (f s) ∙ k s)
compose-KeepsOrSets f g id h (inr (st, l)) = inr (st, λ s. l (f s))

status_after-KeepsOrSets : (cs : List Chunk) (id : ProcId) → KeepsOrSets (status_after cs) id
status_after-KeepsOrSets [] id = inl (λ s. refl)
status_after-KeepsOrSets (backlog lines st ∷ cs) id =
    compose-KeepsOrSets (λ s. st) (status_after cs) id (inr (status_in st id, λ s. refl))
      (status_after-KeepsOrSets cs id)
status_after-KeepsOrSets (live (log line) ∷ cs) id = status_after-KeepsOrSets cs id
status_after-KeepsOrSets (live (status st) ∷ cs) id =
    compose-KeepsOrSets (put_status st.id st) (status_after cs) id
      (put_status-KeepsOrSets st.id id st) (status_after-KeepsOrSets cs id)
status_after-KeepsOrSets (ping ∷ cs) id = status_after-KeepsOrSets cs id

twice :
    (f : Statuses → Statuses) (id : ProcId) (s : Statuses)
    → KeepsOrSets f id
    → status_in (f (f s)) id ≡ status_in (f s) id
twice f id s (inl k) = k (f s)
twice f id s (inr (st, k)) = k (f s) ∙ sym (k s)

-- Chunks that are taken once more change nothing.
pub status_after_idem :
    (cs : List Chunk) (s : Statuses) → status_after cs (status_after cs s) ≡ status_after cs s
status_after_idem cs s =
    let p = twice (status_after cs) server s (status_after-KeepsOrSets cs server) in
    let q = twice (status_after cs) daemon s (status_after-KeepsOrSets cs daemon) in
    λ i. record { server = p i; daemon = q i }

pub status-take_chunk :
    {N : Type 0} (c : Chunk) (s : AppState N)
    → (take_chunk c s).status ≡ status_after (c ∷ []) s.status
unfolding take_chunk set_backlog receive append_log set_status
status-take_chunk (backlog lines st) s = refl
status-take_chunk (live (log line)) s = refl
status-take_chunk (live (status st)) s = refl
status-take_chunk ping s = refl

-- The rest of a list from an index on.
pub drop-get_elem? :
    {A : Type 0} (n : ℕ) (xs : List A) (x : A)
    → get_elem? xs n ≡ some x
    → drop n xs ≡ x ∷ drop (suc n) xs
drop-get_elem? n [] x h = absurd (cc)
drop-get_elem? zero (y ∷ xs) x h = ground arith
drop-get_elem? (suc n) (y ∷ xs) x h = drop-get_elem? n xs x h

delivered-live : (es : List Emission) → delivered (map (emits true) es) ≡ map live es
delivered-live [] = refl
delivered-live (e ∷ es) = ap (λ cs. live e ∷ cs) (delivered-live es)

all_work : (es : List Emission) → AllWork (map (emits true) es)
all_work [] = tt
all_work (e ∷ es) = (refl, all_work es)

-- The chunks up to an index do not matter for what the rest leaves a second time.
pub status_after-rest :
    (k : ℕ) (cs : List Chunk) (s : Statuses)
    → (t : Statuses) × (status_after cs s ≡ status_after (drop k cs) t)
status_after-rest zero cs s = (s, refl)
status_after-rest (suc k) [] s = (s, refl)
status_after-rest (suc k) (c ∷ cs) s =
    let (t, same) = status_after-rest k cs (status_after (c ∷ []) s) in
    (t, status_after-append (c ∷ []) cs s ∙ same)

drop-length-append : {A : Type 0} (xs ys : List A) → drop (length xs) (xs ++ ys) ≡ ys
drop-length-append [] ys = refl
drop-length-append (x ∷ xs) ys = drop-length-append xs ys

pub step-IsFollowed :
    (e : Env) (ev : Event) (w : World)
    → HasIds (all_status w.manager)
    → IsFollowed w.manager (step e ev w).manager
unfolding run
step-IsFollowed e ev w ids =
    run-IsFollowed w.manager ((e, ev) ∷ []) w (base-IsFollowed w.manager ids)

-- What a step emits stands behind what was emitted before.
pub news : (m m' : Manager) (v : IsFollowed m m') → drop (length m.emitted) m'.emitted ≡ v.since
news m m' v = ap (drop (length m.emitted)) v.emitted ∙ drop-length-append m.emitted v.since

-- A step of the world tells an open connection what takes the old status to the new one.
pub notify_open :
    (e : Env) (ev : Event) (w : World) (c : Connection)
    → HasIds (all_status w.manager)
    → IsOpen c
    → let w' = step e ev w in
      (es : List Emission) × (notify true (length w.manager.emitted) w' c
        ≡ record c { written = c.written ++ map live es })
      × (replay es (all_status w.manager) ≡ all_status w'.manager)
notify_open e ev w c ids o =
    let v = step-IsFollowed e ev w ids in
    (
      v.since,
      ap (λ es. handle_all (map (emits true) es) c) (news _ _ v)
          ∙ handle_all_open (map (emits true) v.since) c (all_work v.since) o
          ∙ ap (λ cs. record c { written = c.written ++ cs }) (delivered-live v.since),
      v.replayed,
    )
